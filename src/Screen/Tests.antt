-- ===== src/Screen/Tests.antt =====
-- A number and a line on a concrete screen.
use mp.Base.{ℕ, ◌≡◌, refl, arith, inl, some, [], ◌∷◌, get_or}
use mp.Screen.{Screen, printf, putc, next_x, next_y}
use mp.Screen.Output.{printf-Printed, Printed}

abbrev blank_screen : Screen
blank_screen = record { mem = λ a. 32; screen_x = 10; screen_y = 2 }

abbrev unsigned : ℕ → ℕ
unsigned i = get_or (b'%' ∷ b'u' ∷ 0 ∷ []) i 0

-- At the end of a line the cursor goes back to the start of the same line.
same_line : (putc (record blank_screen { screen_x = 79 }) 65).screen_y ≡ 2
unfolding putc next_x next_y
same_line = refl

printf-Printed_example :
    (r : Screen) × (printf 5 blank_screen unsigned (λ i. 391) ≡ some (r, 2))
    × Printed 391 10 blank_screen r
printf-Printed_example =
    printf-Printed 5 blank_screen unsigned (λ i. 391) 10
      (record { column = omega arith; row = omega arith }) (omega arith) refl (inl (refl, refl))
      refl (omega arith) (omega arith)
