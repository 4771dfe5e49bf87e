-- ===== src/Syscall/Tests.antt =====
-- A process of one page whose first argument, at address 108, is 16, where the string `A` stands.
use os_2024_project_vm.Base.{◌+◌, ◌-◌, ◌≤◌, ◌<◌, ◌≡◌, refl, some, arith, ◌==◌, if◌then◌else◌}
use os_2024_project_vm.Strings.{Bytes}
use os_2024_project_vm.Strings.Length.{StringAt}
use os_2024_project_vm.Syscall.{word_at, is_negative, fetchint, fetchstr, argint, argptr}
use os_2024_project_vm.Syscall.Pointers.{argptr_lem, fetchstr-StringAt}

abbrev user_memory : Bytes
user_memory a = if a == 108 then 16 else (if a == 16 then 65 else 0)

lets_through : argptr 4096 user_memory 104 0 2 ≡ some 16
unfolding argptr argint fetchint word_at is_negative
lets_through = refl

argptr_lem_example : (argint 4096 user_memory 104 0 ≡ some 16) × (16 < 4096) × (16 + 2 ≤ 4096)
argptr_lem_example = argptr_lem 4096 user_memory 104 0 2 16 (omega arith) (omega arith) lets_through

fetchstr-StringAt_example : StringAt user_memory (4096 - 16) 16 0 (fetchstr 4096 user_memory 16)
fetchstr-StringAt_example = fetchstr-StringAt 4096 user_memory 16 (omega arith)
