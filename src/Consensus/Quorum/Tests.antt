-- ===== src/Consensus/Quorum/Tests.antt =====
-- The theorems on quorums at concrete inputs.
use ai_inference_chain.Prelude.{
  ℕ, zero, suc, ◌+◌, ◌≤◌, ◌<◌, ◌≡◌, ◌⊎◌, refl, ap, true, none, some, List, [], ◌∷◌, length, take,
  All, arith,
}
use ai_inference_chain.Prelude.Int.{negsuc}
use ai_inference_chain.Blockchain.Constants.{Text, dnn, empty_text}
use ai_inference_chain.Blockchain.Chain.State.{NodeInfo}
use ai_inference_chain.Blockchain.Mempool.Selection.{All-take}
use ai_inference_chain.Consensus.Quorum.{
  Quorum, Sampling, filter_eligible, select_quorum, quorum_f, quorum_threshold,
}
use ai_inference_chain.Consensus.Quorum.Thresholds.{
  IsMajority, range, quorum_threshold-Shared, quorum_threshold-split,
}
use ai_inference_chain.Prelude.Dict.{IsDistinct}
use ai_inference_chain.Prelude.Quorums.{Shared}
use ai_inference_chain.Consensus.Quorum.Selection.{IsSampling, IsEligible, select_quorum-lem}

-- A sampling that takes the first elements.
abbrev first_ones : Sampling
first_ones = record {
  sample = λ seed xs k. take k xs;
  seed_of = λ b r. b + r;
  shortlist = λ pool k. none;
}

length-take_all : (xs : List NodeInfo) (k : ℕ) → k ≤ length xs → length (take k xs) ≡ k
length-take_all xs zero h = refl
length-take_all [] (suc k) h = absurd (omega arith)
length-take_all (x ∷ xs) (suc k) h = ap suc (length-take_all xs k (omega arith))

first_ones-IsSampling : IsSampling first_ones
first_ones-IsSampling = record {
  size = λ seed xs k h. length-take_all xs k h;
  members = λ P seed xs k h a. All-take P k xs a;
}

abbrev node : Text → NodeInfo
node n = record {
  node_id = n;
  address = n;
  node_type = dnn;
  public_key = 50;
  endpoint = 51;
  registered_at = 0;
  is_active = true;
  pom_verified = true;
  pom_block = negsuc 0;
  model_name = 52;
  weights_hash = 53;
  dataset_id = 54;
  architecture = 0;
}

abbrev five : List NodeInfo
five = node 11 ∷ node 14 ∷ node 12 ∷ node 13 ∷ node 15 ∷ []

select_quorum-lem_example :
    ((length (filter_eligible five 52 empty_text) < 4)
      × (select_quorum first_ones 8 9 five 52 empty_text 10 4 19 ≡ none))
    ⊎ ((q : Quorum) × (select_quorum first_ones 8 9 five 52 empty_text 10 4 19 ≡ some q)
        × (length q.nodes ≡ q.quorum_size)
        × (4 ≤ q.quorum_size)
        × (q.quorum_size ≤ 19)
        × All (IsEligible 52 empty_text) q.nodes)
select_quorum-lem_example =
    select_quorum-lem first_ones 8 9 five 52 empty_text 10 4 19 first_ones-IsSampling
      (λ pool k. refl) (omega arith)

-- Nodes 0 to 3, of which node 2 is faulty.
all_of-four : IsMajority (range 0 4) (0 ∷ 1 ∷ 2 ∷ [])
unfolding quorum_threshold quorum_f
all_of-four = record {
  distinct = ground arith;
  known = (refl, (refl, (refl, tt)));
  many = omega arith;
}

quorum_threshold-Shared_example : Shared (0 ∷ 1 ∷ 2 ∷ []) (0 ∷ 1 ∷ 2 ∷ []) (2 ∷ [])
unfolding quorum_f
quorum_threshold-Shared_example =
    quorum_threshold-Shared (range 0 4) (2 ∷ []) (0 ∷ 1 ∷ 2 ∷ []) (0 ∷ 1 ∷ 2 ∷ []) (ground arith)
      refl (omega arith) all_of-four all_of-four

quorum_threshold-split_example :
    (nodes : List Text) × (bad : List Text) × (xs : List Text) × (ys : List Text) × (length nodes
      ≡ 6)
    × IsDistinct nodes
    × (length bad ≤ quorum_f 6)
    × IsMajority nodes xs
    × IsMajority nodes ys
    × ¬ Shared xs ys bad
quorum_threshold-split_example = quorum_threshold-split 6 (omega arith) (λ e. ground (arith, e))
