-- ===== src/Printf/Tests.antt =====
-- printf.c on small inputs.
use os_2024_project_vm.Base.{◌≡◌, refl, true, some, arith, [], ◌∷◌}
use os_2024_project_vm.Memory.{update}
use os_2024_project_vm.Printf.{printint, push_digits, printf, printf_loop, conversion}
use os_2024_project_vm.Printf.Decimal.{Decimal, printint-Decimal}

-- -205
prints_negative : printint 4294967091 10 true ≡ some (45 ∷ 50 ∷ 48 ∷ 53 ∷ [])
unfolding printint push_digits
prints_negative = refl

-- "a%x%%" at 10, with 255
prints_format :
    printf 9
      (update (update (update (update (update (λ a. 0) 10 97) 11 37) 12 120) 13 37) 14 37)
      10
      (λ i. 255)
    ≡ some (97 ∷ 70 ∷ 70 ∷ 37 ∷ [])
unfolding printf printf_loop conversion printint push_digits
prints_format = refl

printint-Decimal_example : Decimal 205 true (printint 205 10 true)
printint-Decimal_example = printint-Decimal 205 true (omega arith)
