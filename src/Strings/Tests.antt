-- ===== src/Strings/Tests.antt =====
-- The string routines on a small memory.
use os_2024_project_vm.Base.{
  some, ◌≢◌, refl, ℕ, ◌+◌, ◌≤◌, ◌<◌, ◌≡◌, ◌↔◌, inr, ◌⊎◌, ◌&&◌, ◌%◌, arith, ltb, leb, ◌-◌,
  if◌then◌else◌,
}
use os_2024_project_vm.Base.Int.{pos}
use os_2024_project_vm.Strings.{Bytes, memset, memmove, strncmp, safestrcpy, strlen}
use os_2024_project_vm.Strings.Move.{memmove_lem, memset_lem}
use os_2024_project_vm.Strings.Compare.{Agree, strncmp_iff}
use os_2024_project_vm.Strings.Length.{strlen_lem}
use os_2024_project_vm.Strings.Copy.{Copied, safestrcpy_lem}

-- `vm` at address 10
abbrev name_at_ten : Bytes
name_at_ten a = if (leb 10 a && ltb a 12) then 108 + a % 2 else 0

memmove_lem_example :
    memmove name_at_ten 11 10 3 12
    ≡ (if leb 11 12 && ltb 12 14 then name_at_ten (10 + (12 - 11)) else name_at_ten 12)
memmove_lem_example = memmove_lem name_at_ten 11 10 3 12

memset_lem_example :
    memset name_at_ten 8 261 4 9 ≡ (if leb 8 9 && ltb 9 12 then 5 else name_at_ten 9)
memset_lem_example = memset_lem name_at_ten 8 261 4 9

strncmp_iff_example : (strncmp 4 name_at_ten 10 10 ≡ pos 0) ↔ Agree 4 name_at_ten 10 10
strncmp_iff_example = strncmp_iff 4 name_at_ten 10 10

safestrcpy_lem_example :
    Copied 1 name_at_ten (safestrcpy name_at_ten 20 10 2) 20 10
    × ((a : ℕ) → (a < 20) ⊎ (21 < a) → safestrcpy name_at_ten 20 10 2 a ≡ name_at_ten a)
safestrcpy_lem_example = safestrcpy_lem 1 name_at_ten 20 10 (inr (omega arith))

strlen_lem_example :
    (l : ℕ) × (strlen 5 name_at_ten 10 0 ≡ some l)
    × (l ≤ 2)
    × (name_at_ten (10 + l) ≡ 0)
    × ((j : ℕ) → j < l → name_at_ten (10 + j) ≢ 0)
strlen_lem_example = strlen_lem name_at_ten 5 10 2 (omega arith) refl
