-- ===== src/Qoi/Proposer/Tests.antt =====
-- The theorem on proposers at concrete inputs.
use ai_inference_chain.Prelude.{ℕ, zero, suc, ◌≡◌, refl, true, false, some, List, [], ◌∷◌, arith}
use ai_inference_chain.Prelude.Int.{negsuc}
use ai_inference_chain.Prelude.Dict.{Dict, get_or}
use ai_inference_chain.Blockchain.Constants.{Text, dnn}
use ai_inference_chain.Blockchain.Chain.State.{NodeInfo}
use ai_inference_chain.Qoi.Quality.Fixed.{fixed}
use ai_inference_chain.Qoi.Proposer.{weigh, roll_of, select_proposer}
use ai_inference_chain.Qoi.Proposer.Choice.{select_proposer-IsStaked}
use mathlib.Core.List.{Mem}

abbrev node : Text → NodeInfo
node n = record {
  node_id = n;
  address = n;
  node_type = dnn;
  public_key = 50;
  endpoint = 51;
  registered_at = 0;
  is_active = true;
  pom_verified = true;
  pom_block = negsuc 0;
  model_name = 52;
  weights_hash = 53;
  dataset_id = 54;
  architecture = 0;
}

abbrev three : List NodeInfo
three = node 11 ∷ node 12 ∷ node 13 ∷ []

abbrev stakes_held : Dict ℕ
stakes_held = (12, 2000) ∷ (13, 3000) ∷ []

-- Half of 2^64, whatever the hash and the view.
abbrev half_seed : Text → ℕ → ℕ
half_seed prev_hash view = 9223372036854775808

drawn_last : select_proposer fixed half_seed three stakes_held [] 7 1 ≡ some 13
unfolding select_proposer
drawn_last = refl

no_product : (s b : ℕ) → fixed.lt 0 s ≡ false → fixed.mul s b ≡ 0
no_product zero b h = omega arith
no_product (suc s) b h = absurd (ground (arith, h))

select_proposer-IsStaked_example :
    (n : NodeInfo) × Mem n three
    × (select_proposer fixed half_seed three stakes_held [] 7 1 ≡ some n.node_id)
    × (fixed.lt 0 (get_or n.node_id stakes_held 0) ≡ true)
unfolding weigh roll_of
select_proposer-IsStaked_example =
    select_proposer-IsStaked fixed (λ x. ground arith)
      (λ r x s b h i j. grind (arith, no_product s b h, j)) half_seed three stakes_held [] 7 1 refl
      refl refl
