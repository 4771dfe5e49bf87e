-- ===== src/Sleeplock/Tests.antt =====
-- Process 5 takes a new lock.
use os_2024_project_vm.Base.{◌≡◌, refl, true, false, some, ok}
use os_2024_project_vm.Sleeplock.{
  Sleeplock, acquire_lk, release_lk, initsleeplock, acquiresleep, releasesleep, holdingsleep,
}
use os_2024_project_vm.Sleeplock.Holder.{starts, takes, one_holder}

abbrev taken_by_five : Sleeplock
taken_by_five = record { lk = false; locked = true; pid = 5; woken = 0 }

five_takes : acquiresleep 5 initsleeplock ≡ ok (true, taken_by_five)
unfolding acquiresleep acquire_lk release_lk initsleeplock
five_takes = refl

one_holder_example :
    (l1 l2 l3 : Sleeplock) × (acquiresleep 6 taken_by_five ≡ ok (false, l1))
    × (holdingsleep 6 taken_by_five ≡ ok (false, l2))
    × (releasesleep taken_by_five ≡ ok (tt, l3))
one_holder_example = one_holder taken_by_five (some 5) 6 (takes 5 starts five_takes)
