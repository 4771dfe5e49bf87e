-- ===== src/Memory.antt =====
-- Physical memory as the kernel sees it, at kernel virtual addresses: the 32-bit words of each page.
-- memset and memmove of string.c on a whole page are updates of that page.
use os_2024_project_vm.Base.{
  ℕ, ◌+◌, ◌-◌, ◌*◌, ◌^◌, List, [], ◌∷◌, ◌/◌, ◌%◌, ◌≡◌, ◌≢◌, arith, ◌==◌, if◌then◌else◌,
}

abbrev pub update {ℓ} : {A : Type ℓ} → (ℕ → A) → ℕ → A → ℕ → A
update f i a j = if i == j then a else f j

-- page number, then word within the page
abbrev pub Memory : Type 0
Memory = ℕ → ℕ → ℕ

abbrev pub page : ℕ → ℕ
page a = a / 4096

abbrev pub word : ℕ → ℕ
word a = a % 4096 / 4

-- An aligned 32-bit access.
unfoldable pub load : Memory → ℕ → ℕ
load m a = m (page a) (word a)

unfoldable pub store : Memory → ℕ → ℕ → Memory
store m a v = update m (page a) (update (m (page a)) (word a) v)

-- memset of a whole page: every word has the byte four times.
unfoldable pub memset_page : Memory → ℕ → ℕ → Memory
memset_page m a c = update m (page a) (λ _. c * 0x1010101)

-- memmove of a whole page to another.
unfoldable pub memmove_page : Memory → ℕ → ℕ → Memory
memmove_page m dst src = update m (page dst) (m (page src))

-- A store of one byte keeps the other three of its word; the first byte is the lowest.
unfoldable pub store_byte : Memory → ℕ → ℕ → Memory
unfolding load store
store_byte m a b =
    let shift = 256 ^ (a % 4) in
    let old = load m a in store m a (old - old / shift % 256 * shift + b * shift)

unfoldable pub load_byte : Memory → ℕ → ℕ
unfolding load
load_byte m a = load m a / 256 ^ (a % 4) % 256

unfoldable pub store_bytes : Memory → ℕ → List ℕ → Memory
unfolding store_byte
store_bytes m a [] = m
store_bytes m a (b ∷ bs) = store_bytes (store_byte m a b) (a + 1) bs

pub load-store_self : (m : Memory) (a v : ℕ) → load (store m a v) a ≡ v
unfolding load store
load-store_self m a v = ground arith

pub store_other : (m : Memory) (a v p : ℕ) → page a ≢ p → store m a v p ≡ m p
unfolding store
store_other m a v p h = ground arith

pub memset_other : (m : Memory) (a c p : ℕ) → page a ≢ p → memset_page m a c p ≡ m p
unfolding memset_page
memset_other m a c p h = ground arith
