-- ===== src/Consensus/Quorum.antt =====
-- core/consensus/quorum.py: the committee for one inference request. Python's seeded
-- `random.sample` and the shortlist by out-of-distribution scores are parameters.
pub mod Thresholds
pub mod Selection
mod Tests
use ai_inference_chain.Prelude.{
  ℕ, ◌+◌, ◌-◌, ◌*◌, ◌/◌, Bool, true, false, not, ◌&&◌, ◌||◌, Option, none, some, List, [], ◌∷◌, map,
  ltb, leb, ◌==◌, if◌then◌else◌, length, keep, is_member,
}
use ai_inference_chain.Blockchain.Constants.{Text, is_truthy}
use ai_inference_chain.Blockchain.Chain.State.{NodeInfo}
use ai_inference_chain.Blockchain.Mempool.{sort}

abbrev pub quorum_target : ℕ
quorum_target = 10

abbrev pub quorum_floor : ℕ
quorum_floor = 4

abbrev pub quorum_ceiling : ℕ
quorum_ceiling = 19

-- The fields that the selection without scores fills; `seed` is the hex digest.
pub record Quorum : Type 0 where
  pub nodes : List NodeInfo
  pub quorum_size : ℕ
  pub f : ℕ
  pub threshold : ℕ
  pub seed : Text
  pub ood_biased : Bool

-- `quorum_f`, for a size of one or more
unfoldable pub quorum_f : ℕ → ℕ
quorum_f n = (n - 1) / 3

unfoldable pub quorum_threshold : ℕ → ℕ
unfolding quorum_f
quorum_threshold n = 2 * quorum_f n + 1

-- `_filter_eligible`: no filter, or the empty one, lets every node pass
abbrev pub matches : Text → Text → NodeInfo → Bool
matches model dataset n =
    not (is_truthy model && not (n.model_name == model))
    && not (is_truthy dataset && not (n.dataset_id == dataset))

unfoldable pub filter_eligible : List NodeInfo → Text → Text → List NodeInfo
filter_eligible nodes model dataset = keep (matches model dataset) nodes

abbrev pub min_ℕ : ℕ → ℕ → ℕ
min_ℕ a b = if ltb b a then b else a

abbrev pub max_ℕ : ℕ → ℕ → ℕ
max_ℕ a b = if ltb a b then b else a

-- The size of the committee for a pool of `n`.
unfoldable pub committee_size : ℕ → ℕ → ℕ → ℕ → ℕ
committee_size n target floor ceiling = min_ℕ (max_ℕ floor (min_ℕ n target)) ceiling

abbrev pub lower_id : NodeInfo → NodeInfo → Bool
lower_id a b = ltb a.node_id b.node_id

-- What the selection calls: `sample seed pool k` is `random.Random(seed).sample(pool, k)`,
-- `seed_of` hashes the block's hash and the request's id, and `shortlist` gives the pool that the
-- scores leave, or none without an image, without scorers, or where scoring raises.
pub record Sampling : Type 0 where
  pub sample : Text → List NodeInfo → ℕ → List NodeInfo
  pub seed_of : Text → Text → Text
  pub shortlist : List NodeInfo → ℕ → Option (List NodeInfo)

-- The pool that is sampled, and whether it is the shortlist.
unfoldable pub sampled_pool : Sampling → List NodeInfo → ℕ → ℕ → Bool × List NodeInfo
sampled_pool sm pool k floor = elim (sm.shortlist pool k) [
  | none ↦ (false, pool)
  | some short ↦ if leb floor (length short) then (true, short) else (false, pool)
]

unfoldable pub select_quorum :
    Sampling → Text → Text → List NodeInfo → Text → Text → ℕ → ℕ → ℕ → Option Quorum
select_quorum sm request block_hash eligible model dataset target floor ceiling =
    let pool : List NodeInfo = filter_eligible eligible model dataset in
    let k : ℕ = committee_size (length pool) target floor ceiling in
    let seed : Text = sm.seed_of block_hash request in
    let chosen : Bool × List NodeInfo = sampled_pool sm pool k floor in
    if ltb (length pool) floor
    then none
    else some (record {
      nodes = sort lower_id (sm.sample seed chosen.1 (min_ℕ k (length chosen.1)));
      quorum_size = k;
      f = (k - 1) / 3;
      threshold = 2 * ((k - 1) / 3) + 1;
      seed = seed;
      ood_biased = chosen.0;
    })

-- `select_quorum` with its default sizes
abbrev pub select_default_quorum :
    Sampling → Text → Text → List NodeInfo → Text → Text → Option Quorum
select_default_quorum sm request block_hash eligible model dataset =
    select_quorum sm request block_hash eligible model dataset quorum_target quorum_floor
      quorum_ceiling
