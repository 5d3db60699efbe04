-- ===== src/Node/Pom/Tests.antt =====
-- The theorems on core/node/pom.py at a small challenge and four validators.
use ai_inference_chain.Prelude.{ℕ, ◌+◌, ◌<◌, ◌≡◌, some, List, [], ◌∷◌, length, All, arith}
use ai_inference_chain.Prelude.Dict.{IsDistinct}
use ai_inference_chain.Qoi.Quality.Fixed.{fixed}
use ai_inference_chain.Node.Pom.{PomVerificationState, generate_challenge_indices}
use ai_inference_chain.Node.Pom.Challenge.{generate_challenge_indices-IsDistinct}

-- Digests whose numbers repeat.
abbrev digests : ℕ → List ℕ
digests c = c ∷ (c + 10) ∷ (c + 3) ∷ (c + 13) ∷ []

generate_challenge_indices-IsDistinct_example :
    (indices : List ℕ) × (generate_challenge_indices 10 digests 3 2 ≡ some indices)
    × (length indices ≡ 3)
    × IsDistinct indices
    × All (λ i. i < 10) indices
generate_challenge_indices-IsDistinct_example =
    generate_challenge_indices-IsDistinct 9 digests 3 2 (omega arith)

-- Three positive verifications on file, one negative to come.
abbrev three : PomVerificationState fixed
three = record {
  node_id = 11;
  node_type = 12;
  weights_hash = 13;
  positive = 21 ∷ 22 ∷ 23 ∷ [];
  negative = [];
  accuracies = 900 ∷ 850 ∷ 900 ∷ [];
}
