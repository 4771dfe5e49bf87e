-- ===== src/Console.antt =====
-- console.c: the input buffer of the console with its line editing, and reading from it.
pub mod Queue
pub mod Erasing
pub mod Typing
pub mod Reading
pub mod Print
mod Tests
use os_2024_project_vm.Base.{
  ℕ, zero, suc, ◌+◌, ◌-◌, ◌%◌, ◌^◌, Bool, true, false, not, ◌&&◌, ◌||◌, ltb, ◌==◌, if◌then◌else◌,
  List, [], ◌∷◌, ◌++◌,
}
use os_2024_project_vm.Memory.{update}
use os_2024_project_vm.Mmu.{uint}

abbrev pub input_buf : ℕ
input_buf = 128

-- `input`. `r`, `w` and `e` are words, which wrap around. `out` is what consputc was given, with BACKSPACE;
-- `woken` counts the calls of wakeup.
pub record Input : Type 0 where
  pub buf : ℕ → ℕ
  pub r : ℕ
  pub w : ℕ
  pub e : ℕ
  pub out : List ℕ
  pub woken : ℕ

-- `a - b` of words
abbrev pub sub_uint : ℕ → ℕ → ℕ
sub_uint a b = uint (a + 2 ^ 32 - b)

abbrev pub backspace : ℕ
backspace = 0x100

-- C('P'), C('U'), C('H') and C('D')
abbrev pub ctrl_p : ℕ
ctrl_p = 16

abbrev pub ctrl_u : ℕ
ctrl_u = 21

abbrev pub ctrl_h : ℕ
ctrl_h = 8

abbrev pub ctrl_d : ℕ
ctrl_d = 4

abbrev pub newline : ℕ
newline = 10

unfoldable pub consputc : ℕ → Input → Input
consputc c s = record s { out = s.out ++ (c ∷ []) }

-- `input.e--` and the echo of it
unfoldable pub erase : Input → Input
erase s = consputc backspace (record s { e = sub_uint s.e 1 })

-- The loop of C('U'), with at most `rounds` bytes in the line.
unfoldable pub kill_line : ℕ → Input → Input
kill_line zero s = s
kill_line (suc rounds) s =
    let rest = kill_line rounds (erase s) in
    if not (s.e == s.w) && not (s.buf (sub_uint s.e 1 % input_buf) == newline) then rest else s

unfoldable pub erase_one : Input → Input
erase_one s = if not (s.e == s.w) then erase s else s

-- The line is finished if it ends so, or the buffer is full.
unfoldable pub finish : ℕ → Input → Input
finish c s =
    if (c == newline) || (c == ctrl_d) || (s.e == uint (s.r + input_buf))
    then record s { w = s.e; woken = s.woken + 1 }
    else s

unfoldable pub store_char : ℕ → Input → Input
store_char c s =
    finish c
      (consputc c (record s { buf = update s.buf (s.e % input_buf) (c % 256); e = uint (s.e + 1) }))

-- The default case of consoleintr.
unfoldable pub insert_char : ℕ → Input → Input
insert_char c s =
    if not (c == 0) && ltb (sub_uint s.e s.r) input_buf
    then store_char (if c == 13 then newline else c) s
    else s

-- A round of the loop of consoleintr.
unfoldable pub typed : ℕ → Input → Input
typed c s =
    if c == ctrl_p
    then s
    else (if c == ctrl_u
        then kill_line input_buf s
        else (if (c == ctrl_h) || (c == 0x7f) then erase_one s else insert_char c s))

-- consoleintr on the bytes that getc returns before -1, and whether procdump follows.
unfoldable pub consoleintr_loop : List ℕ → Bool → Input → Input × Bool
consoleintr_loop [] dump s = (s, dump)
consoleintr_loop (c ∷ cs) dump s = consoleintr_loop cs (dump || (c == ctrl_p)) (typed c s)

unfoldable pub consoleintr : List ℕ → Input → Input × Bool
consoleintr cs s = consoleintr_loop cs false s

-- How a pass of consoleread ends: with what it has copied, or asleep with `left` bytes to go.
pub data Read : Type 0 where
  returns : List ℕ → Read
  asleep : (copied : List ℕ) (left : ℕ) → Read

abbrev pub put_first : ℕ → Read → Read
put_first c (returns cs) = returns (c ∷ cs)
put_first c (asleep cs left) = asleep (c ∷ cs) left

abbrev pub copy_first : {S : Type 0} → ℕ → Read × S → Read × S
copy_first c r = (put_first c r.0, r.1)

-- The loop of consoleread with `n` bytes to go of `target`, for a process that is not killed.
unfoldable pub consoleread_loop : ℕ → ℕ → Input → Read × Input
consoleread_loop zero target s = (returns [], s)
consoleread_loop (suc n) target s =
    let c = s.buf (s.r % input_buf) in
    let s' = record s { r = uint (s.r + 1) } in
    let rest = consoleread_loop n target s' in
    if s.r == s.w
    then (asleep [] (suc n), s)
    else (if c == ctrl_d
        then (returns [], if ltb (suc n) target then record s' { r = sub_uint s'.r 1 } else s')
        else (if c == newline then (returns (c ∷ []), s') else copy_first c rest))

unfoldable pub consoleread : ℕ → Input → Read × Input
consoleread n s = consoleread_loop n n s
