-- ===== src/Console/Queue.antt =====
-- console.c: the input as a queue: the bytes that are typed and not read, and how many of them a reader may
-- take.
use os_2024_project_vm.Base.{
  ℕ, zero, suc, ◌+◌, ◌-◌, ◌%◌, ◌^◌, ◌≤◌, ◌<◌, ◌≡◌, ◌≢◌, refl, ap, not, ◌&&◌, ◌||◌, ltb, ◌==◌,
  if◌then◌else◌, List, [], ◌∷◌, ◌++◌, length, get_or, take, arith,
}
use os_2024_project_vm.Console.{
  Input, input_buf, ctrl_p, ctrl_u, ctrl_h, ctrl_d, newline, Read, returns, asleep, copy_first,
}

pub record Queue : Type 0 where
  pub bytes : List ℕ
  pub ready : ℕ

unfoldable pub push : ℕ → Queue → Queue
push c q =
    let bytes = q.bytes ++ (c ∷ []) in
    record {
      bytes = bytes;
      ready =
          if (c == newline) || (c == ctrl_d) || (length q.bytes + 1 == input_buf)
          then length bytes
          else q.ready;
    }

-- A byte of the unfinished line is taken back.
unfoldable pub take_back : Queue → Queue
take_back q = record q {
  bytes = if ltb q.ready (length q.bytes) then take (length q.bytes - 1) q.bytes else q.bytes;
}

-- The queue after a byte is typed: ^U takes back the unfinished line, and a line is finished by a newline, by
-- ^D, or by filling the buffer.
unfoldable pub type_byte : ℕ → Queue → Queue
type_byte c q =
    if c == ctrl_p
    then q
    else (if c == ctrl_u
        then record q { bytes = take q.ready q.bytes }
        else (if (c == ctrl_h) || (c == 0x7f)
            then take_back q
            else (if not (c == 0) && ltb (length q.bytes) input_buf
                then push (if c == 13 then newline else c) q
                else q)))

abbrev pub queue : List ℕ → ℕ → Queue
queue bs k = record { bytes = bs; ready = k }

-- What a reader of `n` bytes more of `target` gets: the bytes that are ready, up to a newline, or up to ^D, which is
-- kept for the next reader if there were bytes before it.
unfoldable pub read_bytes : ℕ → ℕ → List ℕ → ℕ → Read × Queue
read_bytes zero target bs k = (returns [], queue bs k)
read_bytes (suc n) target bs zero = (asleep [] (suc n), queue bs zero)
read_bytes (suc n) target [] (suc k) = (asleep [] (suc n), queue [] (suc k))
read_bytes (suc n) target (b ∷ bs) (suc k) =
    let rest = read_bytes n target bs k in
    let taken = queue bs k in
    if b == ctrl_d
    then (returns [], if ltb (suc n) target then queue (b ∷ bs) (suc k) else taken)
    else (if b == newline then (returns (b ∷ []), taken) else copy_first b rest)

-- The state holds the queue, with `n` bytes read since the start: the indices count bytes, as words.
abbrev pub Holds : ℕ → Queue → Input → Type 0
Holds n q s =
    (q.ready ≤ length q.bytes)
    × (length q.bytes ≤ input_buf)
    × (s.r ≡ n % 2 ^ 32)
    × (s.w ≡ (n + q.ready) % 2 ^ 32)
    × (s.e ≡ (n + length q.bytes) % 2 ^ 32)
    × ((i : ℕ) → i < length q.bytes → s.buf ((n + i) % input_buf) ≡ get_or q.bytes i 0)
    × ((i : ℕ) → q.ready ≤ i → i < length q.bytes → get_or q.bytes i 0 ≢ newline)

pub length-push : (xs : List ℕ) (c : ℕ) → length (xs ++ (c ∷ [])) ≡ length xs + 1
length-push [] c = refl
length-push (x ∷ xs) c = omega (arith, length-push xs c)

pub get_or-push_old :
    (xs : List ℕ) (c i : ℕ) → i < length xs → get_or (xs ++ (c ∷ [])) i 0 ≡ get_or xs i 0
get_or-push_old [] c i lt = absurd (omega arith)
get_or-push_old (x ∷ xs) c zero lt = refl
get_or-push_old (x ∷ xs) c (suc i) lt = get_or-push_old xs c i (omega arith)

pub get_or-push_new : (xs : List ℕ) (c : ℕ) → get_or (xs ++ (c ∷ [])) (length xs) 0 ≡ c
get_or-push_new [] c = refl
get_or-push_new (x ∷ xs) c = get_or-push_new xs c

pub length-take_le : (n : ℕ) (xs : List ℕ) → n ≤ length xs → length (take n xs) ≡ n
length-take_le zero xs le = refl
length-take_le (suc n) [] le = absurd (omega arith)
length-take_le (suc n) (x ∷ xs) le = ap suc (length-take_le n xs (omega arith))

pub get_or-take : (n : ℕ) (xs : List ℕ) (i : ℕ) → i < n → get_or (take n xs) i 0 ≡ get_or xs i 0
get_or-take zero xs i lt = absurd (omega arith)
get_or-take (suc n) [] i lt = refl
get_or-take (suc n) (x ∷ xs) zero lt = refl
get_or-take (suc n) (x ∷ xs) (suc i) lt = get_or-take n xs i (omega arith)

pub take-all : (xs : List ℕ) → take (length xs) xs ≡ xs
take-all [] = refl
take-all (x ∷ xs) = ap (λ ys. x ∷ ys) (take-all xs)

pub take-take : (m n : ℕ) (xs : List ℕ) → m ≤ n → take m (take n xs) ≡ take m xs
take-take zero n xs le = refl
take-take (suc m) zero xs le = absurd (omega arith)
take-take (suc m) (suc n) [] le = refl
take-take (suc m) (suc n) (x ∷ xs) le = ap (λ ys. x ∷ ys) (take-take m n xs (omega arith))
