-- ===== src/Bio/Tests.antt =====
-- A cache of two buffers.
use os_2024_project_vm.Base.{refl, true, false, [], ◌∷◌}
use os_2024_project_vm.Bio.{Bcache}
use os_2024_project_vm.Bio.Cache.{Gets, bget-IsUnique}

abbrev two_bufs : Bcache
two_bufs = record {
  locked = false;
  bufs =
      record { id = 1; valid = true; dirty = false; dev = 1; blockno = 7; refcnt = 1 }
      ∷ record { id = 0; valid = false; dirty = false; dev = 0; blockno = 0; refcnt = 0 }
      ∷ [];
}

bget-IsUnique_example : Gets 1 9 two_bufs
bget-IsUnique_example = bget-IsUnique 1 9 two_bufs refl ((λ used. (refl, tt)), ((λ used. tt), tt))
