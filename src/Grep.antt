-- ===== src/Grep.antt =====
-- grep.c: the matcher of patterns with ^ . * $, on strings in the memory. A result `none` is a string that
-- did not end within the fuel.
pub mod Pattern
pub mod Decide
mod Tests
use os_2024_project_vm.Base.{
  ℕ, zero, suc, ◌+◌, Bool, true, false, not, ◌&&◌, ◌||◌, Option, none, some, ◌==◌, if◌then◌else◌,
}
use os_2024_project_vm.Strings.{Bytes}

-- '$', '*', '.' and '^'
abbrev pub dollar : ℕ
dollar = 36

abbrev pub asterisk : ℕ
asterisk = 42

abbrev pub dot : ℕ
dot = 46

abbrev pub caret : ℕ
caret = 94

-- `if(...) return 1;` and what comes after it
abbrev pub or_else : Option Bool → Option Bool → Option Bool
or_else none rest = none
or_else (some true) rest = some true
or_else (some false) rest = rest

-- matchstar: `here` is matchhere for the rest of the pattern.
unfoldable pub matchstar : Bytes → ℕ → (ℕ → Option Bool) → ℕ → ℕ → Option Bool
matchstar m zero here c text = none
matchstar m (suc fuel) here c text =
    let rest = matchstar m fuel here c (text + 1) in
    or_else (here text)
      (if not (m text == 0) && ((m text == c) || (c == dot)) then rest else some false)

unfoldable pub matchhere : Bytes → ℕ → ℕ → ℕ → Option Bool
matchhere m zero re text = none
matchhere m (suc fuel) re text =
    let star = matchstar m fuel (matchhere m fuel (re + 2)) (m re) text in
    let next = matchhere m fuel (re + 1) (text + 1) in
    if m re == 0
    then some true
    else (if m (re + 1) == asterisk
        then star
        else (if (m re == dollar) && (m (re + 1) == 0)
            then some (m text == 0)
            else (if not (m text == 0) && ((m re == dot) || (m re == m text))
                then next
                else some false)))

-- The loop of match for a pattern without ^, with `rounds` places at most.
unfoldable pub match_loop : Bytes → ℕ → ℕ → ℕ → ℕ → Option Bool
match_loop m zero fuel re text = none
match_loop m (suc rounds) fuel re text =
    let rest = match_loop m rounds fuel re (text + 1) in
    or_else (matchhere m fuel re text) (if not (m text == 0) then rest else some false)

unfoldable pub match_at : Bytes → ℕ → ℕ → ℕ → Option Bool
match_at m fuel re text =
    if m re == caret then matchhere m fuel (re + 1) text else match_loop m fuel fuel re text
