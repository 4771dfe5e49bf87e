-- ===== src/Spinlock/Tests.antt =====
-- A CPU with interrupts on and a free lock.
use os_2024_project_vm.Base.{
  ℕ, ◌≡◌, ◌≢◌, refl, true, false, ok, panic, out_of_fuel, arith, [], ◌∷◌, none, some,
}
use os_2024_project_vm.Spinlock.{Cpu, Locking, acquire, release}
use os_2024_project_vm.Spinlock.Nesting.{push, pop, run, depth, IsNested, pushcli-popcli}
use os_2024_project_vm.Spinlock.Owner.{acquire-release}

abbrev idle_cpu : Locking
idle_cpu = record {
  self = record { ncli = 0; intena = false; interrupts = true };
  lock = record { locked = false; cpu = none };
}

back_at_zero : depth 0 (push ∷ push ∷ pop ∷ pop ∷ []) ≡ some 0
unfolding depth
back_at_zero = refl

pushcli-popcli_example :
    (s' : Locking) × (run (push ∷ push ∷ pop ∷ pop ∷ []) idle_cpu ≡ ok (tt, s'))
    × IsNested true 0 s'
    × (s'.lock ≡ idle_cpu.lock)
pushcli-popcli_example = pushcli-popcli (push ∷ push ∷ pop ∷ pop ∷ []) 0 idle_cpu refl back_at_zero

acquire-release_example :
    (s1 s2 : Locking) × (acquire 3 idle_cpu ≡ ok (tt, s1))
    × (s1.self.interrupts ≡ false)
    × (acquire 3 s1 ≡ panic "acquire")
    × ((other : ℕ) (o : Cpu)
        → 3 ≢ other
        → (acquire other (record { self = o; lock = s1.lock }) ≡ out_of_fuel)
          × (release other (record { self = o; lock = s1.lock }) ≡ panic "release"))
    × (release 3 s1 ≡ ok (tt, s2))
    × (s2.lock.locked ≡ false)
    × (s2.self.ncli ≡ 0)
    × (s2.self.interrupts ≡ true)
acquire-release_example = acquire-release 3 idle_cpu refl (λ l. absurd (omega arith))
