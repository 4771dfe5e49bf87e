-- ===== src/Console/Tests.antt =====
-- console.c on a short line.
use os_2024_project_vm.Base.{
  ℕ, zero, suc, ◌+◌, ◌%◌, ◌≤◌, ◌<◌, ◌≡◌, ◌≢◌, refl, ok, [], ◌∷◌, arith, get_or,
}
use os_2024_project_vm.Memory.{update}
use os_2024_project_vm.Console.{
  Input, returns, consoleintr, consoleintr_loop, typed, insert_char, store_char, finish, consputc,
  erase, erase_one, consoleread, consoleread_loop,
}
use os_2024_project_vm.Console.Print.{
  cprintf, cprintf_loop, cprintf_case, console_printint, put_digits,
}
use os_2024_project_vm.Console.Queue.{Queue, queue, Holds, type_byte, read_bytes}
use os_2024_project_vm.Console.Typing.{typed-Holds}
use os_2024_project_vm.Console.Reading.{ReadsSame, consoleread-ReadsSame}

abbrev at_start : Input
at_start = record { buf = λ i. 0; r = 0; w = 0; e = 0; out = []; woken = 0 }

-- "ax", backspace, "b" and return are read as "ab" and a newline.
edited :
    (consoleread 10 (consoleintr (97 ∷ 120 ∷ 8 ∷ 98 ∷ 13 ∷ []) at_start).0).0
    ≡ returns (97 ∷ 98 ∷ 10 ∷ [])
unfolding consoleread consoleread_loop consoleintr consoleintr_loop typed insert_char store_char
    finish consputc erase erase_one
edited = refl

-- "hi" is typed.
abbrev hi : Queue
hi = queue (104 ∷ 105 ∷ []) 0

abbrev hi_typed : Input
hi_typed = record at_start { buf = update (update (λ i. 0) 0 104) 1 105; e = 2 }

hi_typed-Holds : Holds 0 hi hi_typed
hi_typed-Holds = (omega arith, omega arith, refl, refl, refl, bytes, line)
  where
    bytes : (i : ℕ) → i < 2 → hi_typed.buf ((0 + i) % 128) ≡ get_or hi.bytes i 0
    bytes zero lt = refl
    bytes (suc zero) lt = refl
    bytes (suc (suc i)) lt = absurd (omega arith)

    line : (i : ℕ) → 0 ≤ i → i < 2 → get_or hi.bytes i 0 ≢ 10
    line zero le lt = λ e. absurd (omega (arith, e))
    line (suc zero) le lt = λ e. absurd (omega (arith, e))
    line (suc (suc i)) le lt = absurd (omega arith)

typed-Holds_example : Holds 0 (type_byte 13 hi) (typed 13 hi_typed)
typed-Holds_example = typed-Holds 0 13 hi hi_typed (omega arith) hi_typed-Holds

consoleread-ReadsSame_example :
    ReadsSame
      (read_bytes 5 5 (type_byte 13 hi).bytes (type_byte 13 hi).ready)
      (consoleread 5 (typed 13 hi_typed))
consoleread-ReadsSame_example =
    consoleread-ReadsSame 5 0 (type_byte 13 hi) (typed 13 hi_typed)
      (typed-Holds 0 13 hi hi_typed (omega arith) hi_typed-Holds)

-- "%x%" with 255 prints "ff": a % at the end is dropped.
prints_hex :
    cprintf 9 (update (update (update (λ a. 0) 10 37) 11 120) 12 37) 10 (λ i. 255)
    ≡ ok (102 ∷ 102 ∷ [])
unfolding cprintf cprintf_loop cprintf_case console_printint put_digits
prints_hex = refl
