-- ===== src/Pipe/Tests.antt =====
-- A pipe whose counters are about to wrap.
use os_2024_project_vm.Base.{
  ◌≡◌, ◌-◌, ◌^◌, refl, true, false, [], ◌∷◌, ok, arith, ◌==◌, if◌then◌else◌,
}
use os_2024_project_vm.Pipe.{Pipe}
use os_2024_project_vm.Pipe.Ring.{IsValid, contents}
use os_2024_project_vm.Pipe.Session.{
  Session, write_turn, read_turn, IsOpen, message, run, run-message,
}

abbrev wrapping : Pipe
wrapping = record {
  locked = false;
  bytes = λ i. if i == 511 then 7 else 0;
  nread = 2 ^ 32 - 1;
  nwrite = 0;
  readopen = true;
  writeopen = true;
  woken = [];
  freed = false;
}

wrapping-IsValid : IsValid wrapping
wrapping-IsValid = omega arith

wrapping_holds : contents wrapping ≡ 7 ∷ []
wrapping_holds = refl

abbrev talk : Session
talk = record { pipe = wrapping; pending = 8 ∷ 9 ∷ []; received = [] }

run-message_example :
    (s' : Session) × (run (write_turn ∷ read_turn 2 ∷ []) talk ≡ ok s')
    × IsOpen s'.pipe
    × (message s' ≡ 7 ∷ 8 ∷ 9 ∷ [])
run-message_example =
    run-message (write_turn ∷ read_turn 2 ∷ []) talk
      (record { valid = wrapping-IsValid; unlocked = refl; reader = refl })
