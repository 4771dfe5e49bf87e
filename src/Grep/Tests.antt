-- ===== src/Grep/Tests.antt =====
-- The matcher of grep.c on a pattern and a text.
use os_2024_project_vm.Base.{◌≡◌, refl, true, false, some, arith}
use os_2024_project_vm.Memory.{update}
use os_2024_project_vm.Strings.{Bytes}
use os_2024_project_vm.Grep.{match_at, matchhere, matchstar, match_loop}
use os_2024_project_vm.Grep.Pattern.{Decides, Matches}
use os_2024_project_vm.Grep.Decide.{match_at-Matches}

-- "a.*d$" at 10, "xabcd" at 30 and "abdc" at 40
abbrev a_memory : Bytes
a_memory =
    update
      (update
        (update
          (update
            (update
              (update
                (update
                  (update
                    (update
                      (update (update (update (update (update (λ a. 0) 10 97) 11 46) 12 42) 13 100)
                        14 36)
                      30 120)
                    31 97)
                  32 98)
                33 99)
              34 100)
            40 97)
          41 98)
        42 100)
      43 99

matches_text : match_at a_memory 20 10 30 ≡ some true
unfolding match_at matchhere matchstar match_loop
matches_text = refl

no_match : match_at a_memory 20 10 40 ≡ some false
unfolding match_at matchhere matchstar match_loop
no_match = refl

match_at-Matches_example : Decides (Matches a_memory 10 30) (match_at a_memory 20 10 30)
match_at-Matches_example =
    match_at-Matches a_memory 20 10 30 15 35 refl (omega arith) refl (omega arith) (omega arith)
