-- ===== src/Simulation/Generator.antt =====
-- gen.go. `rand.Intn` is a parameter, by the number of the draw and the bound; so is `strconv.Atoi`,
-- with 0 for an error, on arguments that are not negative. The result is the text that is printed.
use async_agreement_protocol.Base.{
  ℕ, zero, suc, ◌+◌, ◌-◌, ◌/◌, List, [], ◌∷◌, String, ltb, if◌then◌else◌,
}
use async_agreement_protocol.Simulation.Text.{Text, space, newline, print_number}

module _ (intn : ℕ → ℕ → ℕ) where
  -- "Random generation". `n` is at least 4, so `maxT` is not negative.
  unfoldable pub random_sizes : ℕ × ℕ
  random_sizes =
      let n = intn 0 10 + 4 in
      let max_t = (n - 1) / 3 in
      let drawn = intn 1 (max_t + 1) in (n, if ltb 0 max_t then drawn else 0)

  -- The loop over the honest nodes, with the number of rounds left and of the next draw, and the
  -- Println after it.
  unfoldable pub print_inputs : ℕ → ℕ → Text
  print_inputs zero draw = newline ∷ []
  print_inputs (suc rounds) draw =
      print_number (intn draw 2) (space ∷ print_inputs rounds (suc draw))

  -- What is printed: the formats are "%d %d\n" and, in the loop, "%d ".
  unfoldable pub print_generated : ℕ × ℕ → Text
  print_generated (n, t) =
      print_number n (space ∷ print_number t (newline ∷ print_inputs (n - t) 2))

  -- `main` of gen.go, with the arguments after the name of the program.
  unfoldable pub generate : (String → ℕ) → List String → Text
  generate atoi [] = print_generated random_sizes
  generate atoi (a ∷ []) = print_generated random_sizes
  generate atoi (a ∷ b ∷ rest) = print_generated (atoi a, atoi b)
