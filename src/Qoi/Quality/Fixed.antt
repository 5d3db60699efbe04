-- ===== src/Qoi/Quality/Fixed.antt =====
-- Fixed-point numbers for `Floats`, on which the tests run.
use ai_inference_chain.Prelude.{ℕ, ◌+◌, ◌-◌, ◌*◌, ◌/◌, List, [], ◌∷◌, ltb, ◌==◌}
use ai_inference_chain.Qoi.Quality.{Floats}

abbrev sum_ℕ : List ℕ → ℕ
sum_ℕ [] = 0
sum_ℕ (n ∷ ns) = n + sum_ℕ ns

-- Floats as thousandths, with no negative ones.
abbrev pub fixed : Floats
fixed = record {
  Float = ℕ;
  add = λ a b. a + b;
  mul = λ a b. a * b / 1000;
  div = λ a b. a * 1000 / b;
  neg = λ a. 0 - a;
  sqrt = λ a. a;
  lt = ltb;
  eq = λ a b. a == b;
  thousandths = λ n. n;
  of_ℕ = λ n. n * 1000;
  sum = sum_ℕ;
}
