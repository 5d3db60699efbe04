-- ===== src/Qoi/Proposer.antt =====
-- core/qoi/proposer.py: the primary of a view, drawn by weight. The first eight bytes of the
-- SHA-256 of the previous block's hash and the view, as a number, are the parameter `seed`.
pub mod Choice
mod Tests
use ai_inference_chain.Prelude.{
  ℕ, ◌%◌, Option, none, some, List, [], ◌∷◌, map, length, get_elem?, if◌then◌else◌,
}
use ai_inference_chain.Prelude.Dict.{Dict, get_or, keys, values}
use ai_inference_chain.Blockchain.Constants.{Text}
use ai_inference_chain.Blockchain.Chain.State.{NodeInfo}
use ai_inference_chain.Qoi.Quality.{Floats, zero_float, max_float}

-- `2 ** 64`
abbrev two_64 : ℕ
two_64 = 18446744073709551616

module _ (fl : Floats) where
  open fl use {Float, add, mul, div, sum, lt, eq, thousandths, of_ℕ}

  -- The stake, times one plus a reputation above zero.
  abbrev pub weight_of : Dict Float → Dict Float → Text → Float
  weight_of stakes reputations k =
      let rep : Float = get_or k reputations (zero_float fl) in
      mul (get_or k stakes (zero_float fl))
        (add (thousandths 1000) (max_float fl (zero_float fl) rep))

  -- `zip(node_ids, weights)`
  unfoldable pub weigh : Dict Float → Dict Float → List NodeInfo → Dict Float
  weigh stakes reputations [] = []
  weigh stakes reputations (n ∷ ns) =
      (n.node_id, weight_of stakes reputations n.node_id) ∷ weigh stakes reputations ns

  -- The loop of the weighted selection. `last` is the node before, which is `node_ids[-1]` where
  -- the loop ends.
  unfoldable pub pick : Float → Float → Text → Dict Float → Text
  pick roll cumulative last [] = last
  pick roll cumulative last ((k, w) ∷ d) =
      let rest = pick roll (add cumulative w) k d in if lt roll (add cumulative w) then k else rest

  module _ (seed : Text → ℕ → ℕ) where
    unfoldable pub roll_of : Text → ℕ → Float → Float
    roll_of prev_hash view total = mul (div (of_ℕ (seed prev_hash view)) (of_ℕ two_64)) total

    -- `select_proposer` for weighted nodes
    unfoldable pub draw : Text → ℕ → Dict Float → Option Text
    unfolding pick roll_of
    draw prev_hash view [] = none
    draw prev_hash view ((k, w) ∷ d) =
        let total : Float = sum (values ((k, w) ∷ d)) in
        if eq total (zero_float fl)
        then get_elem? (keys ((k, w) ∷ d)) (view % length (keys ((k, w) ∷ d)))
        else some (pick (roll_of prev_hash view total) (zero_float fl) k ((k, w) ∷ d))

    unfoldable pub select_proposer :
        List NodeInfo → Dict Float → Dict Float → Text → ℕ → Option Text
    unfolding draw weigh
    select_proposer nodes stakes reputations prev_hash view =
        draw prev_hash view (weigh stakes reputations nodes)
