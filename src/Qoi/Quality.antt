-- ===== src/Qoi/Quality.antt =====
-- core/qoi/quality.py: scores, rewards and reputation deltas of a round. Python's floats and
-- `math.sqrt` are the parameter `Floats`; `none` stands for a raised exception. Class labels are
-- natural numbers.
pub mod Rewards
pub mod Lengths
pub mod Fixed
use ai_inference_chain.Prelude.{
  ℕ, zero, suc, Bool, true, false, not, ◌||◌, Option, none, some, List, [], ◌∷◌, map, ◌==◌,
  if◌then◌else◌, length, keep,
}
use ai_inference_chain.Prelude.Dict.{Dict, lookup, insert, contains, values, keys, get_or}
use ai_inference_chain.Blockchain.Constants.{Text}

-- The arithmetic of floats. `thousandths n` is the literal n/1000, `of_ℕ` an int made a float; `sum`
-- is Python's, whose roundings are not those of repeated additions.
pub record Floats : Type 1 where
  pub Float : Type 0
  pub add : Float → Float → Float
  pub mul : Float → Float → Float
  pub div : Float → Float → Float
  pub neg : Float → Float
  pub sum : List Float → Float
  pub sqrt : Float → Float
  pub lt : Float → Float → Bool
  pub eq : Float → Float → Bool
  pub thousandths : ℕ → Float
  pub of_ℕ : ℕ → Float

-- What a node answered: its class and its probabilities.
abbrev pub Response : Floats → Type 0
Response fl = ℕ × List fl.Float

pub record NodeQoiResult (fl : Floats) : Type 0 where
  pub node_id : Text
  pub is_honest : Bool
  pub predicted_class : ℕ
  pub probabilities : List fl.Float
  pub qoi_score : fl.Float
  pub token_reward : fl.Float
  pub rep_delta : fl.Float

pub record RoundResult (fl : Floats) : Type 0 where
  pub request_id : Text
  pub consensus_class : ℕ
  pub aggregated_probs : List fl.Float
  pub primary_id : Text
  pub node_results : List (NodeQoiResult fl)
  pub total_pool : fl.Float

infixl 5 ◌>>=◌
abbrev pub ◌>>=◌ {ℓ κ} : {A : Type ℓ} {B : Type κ} → Option A → (A → Option B) → Option B
none >>= f = none
some a >>= f = f a

module _ (fl : Floats) where
  open fl use {Float, add, mul, div, neg, sum, sqrt, lt, eq, thousandths, of_ℕ}

  abbrev pub zero_float : Float
  zero_float = thousandths 0

  abbrev pub min_float : Float → Float → Float
  min_float a b = if lt b a then b else a

  abbrev pub max_float : Float → Float → Float
  max_float a b = if lt a b then b else a

  products : List Float → List Float → List Float
  products [] ys = []
  products (x ∷ xs) [] = []
  products (x ∷ xs) (y ∷ ys) = mul x y ∷ products xs ys

  -- The norms are taken not to be so small that their product rounds to zero, where Python raises.
  unfoldable pub cosine_similarity : List Float → List Float → Option Float
  unfolding products
  cosine_similarity a b =
      if length a == length b
      then some (
          let norm_a : Float = sqrt (sum (products a a)) in
          let norm_b : Float = sqrt (sum (products b b)) in
          if eq norm_a zero_float || eq norm_b zero_float
          then zero_float
          else min_float (thousandths 1000)
              (max_float zero_float (div (sum (products a b)) (mul norm_a norm_b))))
      else none

  sums : List Float → List Float → List Float
  sums [] ys = []
  sums (x ∷ xs) [] = []
  sums (x ∷ xs) (y ∷ ys) = add x y ∷ sums xs ys

  replicate : ℕ → Float → List Float
  replicate zero x = []
  replicate (suc n) x = x ∷ replicate n x

  -- The loop of `aggregate_probabilities` over the vectors, each of length `n`.
  add_vectors : ℕ → List Float → List (List Float) → Option (List Float)
  add_vectors n agg [] = some agg
  add_vectors n agg (p ∷ ps) =
      let rest = add_vectors n (sums agg p) ps in if length p == n then rest else none

  unfoldable pub aggregate_probabilities : List (List Float) → Option (List Float)
  unfolding add_vectors replicate sums
  aggregate_probabilities [] = none
  aggregate_probabilities (p ∷ ps) = do
    agg ← add_vectors (length p) (replicate (length p) zero_float) (p ∷ ps)
    some (map (λ x. div x (of_ℕ (length (p ∷ ps)))) agg)

  -- `pred_class == consensus_class`
  abbrev pub agrees : ℕ → Text × Response fl → Bool
  agrees c (n, (k, ps)) = k == c

  -- The honest entries of `node_responses`, and the others.
  abbrev pub honest : ℕ → Dict (Response fl) → Dict (Response fl)
  honest c = keep (agrees c)

  abbrev pub byzantine : ℕ → Dict (Response fl) → Dict (Response fl)
  byzantine c = keep (λ e. not (agrees c e))

  abbrev pub vectors : Dict (Response fl) → List (List Float)
  vectors d = map (λ r. r.1) (values d)

  -- `[1.0 / n] * len(probs)` for the first response's `probs`
  unfoldable pub uniform : Dict (Response fl) → Option (List Float)
  unfolding replicate
  uniform [] = none
  uniform ((n, (k, ps)) ∷ d) =
      some (replicate (length ps) (div (thousandths 1000) (of_ℕ (suc (length d)))))

  -- The reference vector. Without an honest node it is uniform.
  unfoldable pub reference : ℕ → Dict (Response fl) → Option (List Float)
  reference c d = elim (honest c d) [
    | [] ↦ uniform d
    | _ ∷ _ ↦ aggregate_probabilities (vectors (honest c d))
  ]

  -- The cosine of each honest vector with the reference.
  unfoldable pub score_all : List Float → Dict (Response fl) → Option (Dict Float)
  score_all ref [] = some []
  score_all ref ((n, (k, ps)) ∷ d) = do
    s ← cosine_similarity ps ref
    rest ← score_all ref d
    some ((n, s) ∷ rest)

  map_values : (Float → Float) → Dict Float → Dict Float
  map_values f [] = []
  map_values f ((n, x) ∷ d) = (n, f x) ∷ map_values f d

  -- Each honest node's share of the pool, before the leader's bonus.
  unfoldable pub shares : Float → Dict Float → Dict Float
  unfolding map_values
  shares pool scores =
      let total : Float = sum (values scores) in
      if lt zero_float total
      then map_values (λ s. mul pool (div s total)) scores
      else map_values (λ _. div pool (of_ℕ (length scores))) scores

  -- `LEADER_BONUS` is 2.0
  unfoldable pub with_bonus : Text → Dict Float → Dict Float
  with_bonus primary rewards = elim (lookup primary rewards) [
    | none ↦ rewards
    | some x ↦ insert primary (add x (thousandths 2000)) rewards
  ]

  -- `REP_CAP_PER_ROUND` is 0.5 and `REP_LEADER_BONUS` 0.1.
  unfoldable pub honest_deltas : Text → Dict Float → Dict Float
  honest_deltas primary [] = []
  honest_deltas primary ((n, s) ∷ d) =
      (
        n,
        (let delta : Float = min_float s (thousandths 500) in
            if n == primary then add delta (thousandths 100) else delta),
      )
      ∷ honest_deltas primary d

  -- `-REP_PENALTY`, which is -0.3
  unfoldable pub byzantine_deltas : Dict (Response fl) → Dict Float
  byzantine_deltas [] = []
  byzantine_deltas ((n, r) ∷ d) = (n, neg (thousandths 300)) ∷ byzantine_deltas d

  -- `rep_deltas`: first the honest nodes' entries, then the others'.
  abbrev pub rep_delta_of : Text → Dict Float → Dict Float → Float
  rep_delta_of n hs bs = get_or n hs (get_or n bs zero_float)

  unfoldable pub node_result :
      ℕ
      → Dict (Response fl)
      → Dict Float
      → Dict Float
      → Dict Float
      → Dict Float
      → Text × Response fl
      → NodeQoiResult fl
  node_result c responses scores rewards hs bs (n, (k, ps)) = record {
    node_id = n;
    is_honest = contains n (honest c responses);
    predicted_class = k;
    probabilities = ps;
    qoi_score = get_or n scores zero_float;
    token_reward = get_or n rewards zero_float;
    rep_delta = rep_delta_of n hs bs;
  }

  -- The result, once the reference and the scores are there.
  abbrev pub round_result :
      Text → Text → ℕ → Dict (Response fl) → Float → List Float → Dict Float → RoundResult fl
  round_result request primary c responses pool ref scores = record {
    request_id = request;
    consensus_class = c;
    aggregated_probs = ref;
    primary_id = primary;
    node_results =
        map
          (node_result c responses scores (with_bonus primary (shares pool scores))
            (honest_deltas primary scores) (byzantine_deltas (byzantine c responses)))
          responses;
    total_pool = pool;
  }

  -- `INFERENCE_REWARD` is 10.0.
  unfoldable pub compute_round_rewards :
      Text → Text → ℕ → Dict (Response fl) → Float → Option (RoundResult fl)
  compute_round_rewards request primary c responses block_fees = do
    ref ← reference c responses
    scores ← score_all ref (honest c responses)
    some (round_result request primary c responses (add block_fees (thousandths 10000)) ref scores)

  pub honest_nodes : RoundResult fl → List (NodeQoiResult fl)
  honest_nodes r = keep (λ n. n.is_honest) r.node_results

  pub byzantine_nodes : RoundResult fl → List (NodeQoiResult fl)
  byzantine_nodes r = keep (λ n. not n.is_honest) r.node_results
