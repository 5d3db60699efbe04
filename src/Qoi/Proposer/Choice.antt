-- ===== src/Qoi/Proposer/Choice.antt =====
-- Who is drawn by `select_proposer` of core/qoi/proposer.py.
use ai_inference_chain.Prelude.{
  ℕ, ◌≡◌, ◌⊎◌, refl, sym, ap, subst, ◌∙◌, inl, inr, Bool, true, false, some, List, [], ◌∷◌,
  if◌then◌else◌, arith, Bool-cases,
}
use mathlib.Core.List.{Mem, mem-cons_self, mem-cons_of_mem}
use ai_inference_chain.Prelude.Dict.{Dict, get_or, values}
use ai_inference_chain.Blockchain.Constants.{Text}
use ai_inference_chain.Blockchain.Chain.State.{NodeInfo}
use ai_inference_chain.Qoi.Quality.{Floats, zero_float, max_float}
use ai_inference_chain.Qoi.Proposer.{weight_of, weigh, pick, roll_of, draw, select_proposer}

module _ (fl : Floats) where
  open fl use {Float, add, mul, sum, lt, eq, thousandths}

  -- The last value of the running sum.
  abbrev pub run_sum : Float → Dict Float → Float
  run_sum x [] = x
  run_sum x ((k, w) ∷ d) = run_sum (add x w) d

  -- Adding the weight brings no sum above a number that it was not above.
  abbrev IsIdle : Float → Type 0
  IsIdle w = (r x : Float) → lt r x ≡ false → lt r (add x w) ≡ false

  -- A node of the list has the name, and a weight that counts.
  abbrev pub IsWeighted : Text → Dict Float → Type 0
  IsWeighted k [] = ⊥
  IsWeighted k ((n, w) ∷ d) = ((k ≡ n) × (IsIdle w → ⊥)) ⊎ IsWeighted k d

  abbrev chosen : Float → Float → Text → Float → Dict Float → Bool → Text
  chosen roll x k w d b = if b then k else pick fl roll (add x w) k d

  pick-IsWeighted :
      (roll x : Float) (last : Text) (d : Dict Float)
      → lt roll x ≡ false
      → lt roll (run_sum x d) ≡ true
      → IsWeighted (pick fl roll x last d) d
  unfolding pick
  pick-IsWeighted roll x last [] low high = absurd (ground (arith, low, high))
  pick-IsWeighted roll x last ((k, w) ∷ d) low high = elim (Bool-cases (lt roll (add x w))) [
    | inl e ↦
        subst (λ n. IsWeighted n ((k, w) ∷ d)) (sym (ap (chosen roll x k w d) e))
          (inl (refl, λ idle. absurd (ground (arith, e, idle roll x low))))
    | inr e ↦
        subst (λ n. IsWeighted n ((k, w) ∷ d)) (sym (ap (chosen roll x k w d) e))
          (inr (pick-IsWeighted roll (add x w) k d e high))
  ]

  weigh-IsStaked :
      (stakes reputations : Dict Float) (nodes : List NodeInfo) (k : Text)
      → IsWeighted k (weigh fl stakes reputations nodes)
      → (n : NodeInfo) × Mem n nodes
        × (k ≡ n.node_id)
        × (IsIdle (weight_of fl stakes reputations n.node_id) → ⊥)
  unfolding weigh
  weigh-IsStaked stakes reputations [] k h = absurd h
  weigh-IsStaked stakes reputations (n ∷ ns) k (inl (e, ne)) = (n, mem-cons_self, e, ne)
  weigh-IsStaked stakes reputations (n ∷ ns) k (inr h) =
      let (m, i, e, ne) = weigh-IsStaked stakes reputations ns k h in
      (m, mem-cons_of_mem n i, e, ne)

  -- The number that the draw compares with the running sum of the weights.
  abbrev pub rolled : (Text → ℕ → ℕ) → List NodeInfo → Dict Float → Dict Float → Text → ℕ → Float
  rolled seed nodes stakes reputations prev_hash view =
      roll_of fl seed prev_hash view (sum (values (weigh fl stakes reputations nodes)))

  draw-IsWeighted :
      (seed : Text → ℕ → ℕ) (prev_hash : Text) (view : ℕ) (d : Dict Float)
      → eq (sum (values d)) (zero_float fl) ≡ false
      → lt (roll_of fl seed prev_hash view (sum (values d))) (zero_float fl) ≡ false
      → lt (roll_of fl seed prev_hash view (sum (values d))) (run_sum (zero_float fl) d) ≡ true
      → (k : Text) × (draw fl seed prev_hash view d ≡ some k) × IsWeighted k d
  unfolding draw
  draw-IsWeighted seed prev_hash view [] some_weight low high = absurd (ground (arith, low, high))
  draw-IsWeighted seed prev_hash view ((k, w) ∷ d) some_weight low high =
      let roll : Float = roll_of fl seed prev_hash view (sum (values ((k, w) ∷ d))) in
      (
        pick fl roll (zero_float fl) k ((k, w) ∷ d),
        ground (arith, some_weight),
        pick-IsWeighted roll (zero_float fl) k ((k, w) ∷ d) low high,
      )

  -- The drawn primary is one of the nodes and has a stake above zero: a node without stake is never
  -- drawn, whatever its reputation. Conditions: the weights do not sum to zero, and the rolled number
  -- is not below zero and is below the last running sum, which roundings can break; of the floats, one
  -- plus a number that is not below zero is above zero, and adding the product of a stake that is not
  -- above zero and a factor above zero brings no sum above a number that it was not above.
  pub select_proposer-IsStaked :
      (boosts : (x : Float)
        → lt (zero_float fl) (add (thousandths 1000) (max_float fl (zero_float fl) x)) ≡ true)
      (no_gain : (r x stake factor : Float)
        → lt (zero_float fl) stake ≡ false
        → lt (zero_float fl) factor ≡ true
        → lt r x ≡ false
        → lt r (add x (mul stake factor)) ≡ false)
      (seed : Text → ℕ → ℕ) (nodes : List NodeInfo) (stakes reputations : Dict Float)
      (prev_hash : Text) (view : ℕ)
      → eq (sum (values (weigh fl stakes reputations nodes))) (zero_float fl) ≡ false
      → lt (rolled seed nodes stakes reputations prev_hash view) (zero_float fl) ≡ false
      → lt
          (rolled seed nodes stakes reputations prev_hash view)
          (run_sum (zero_float fl) (weigh fl stakes reputations nodes))
        ≡ true
      → (n : NodeInfo) × Mem n nodes
        × (select_proposer fl seed nodes stakes reputations prev_hash view ≡ some n.node_id)
        × (lt (zero_float fl) (get_or n.node_id stakes (zero_float fl)) ≡ true)
  unfolding select_proposer
  select_proposer-IsStaked boosts no_gain seed nodes stakes reputations prev_hash view some_weight
        low high =
      let d : Dict Float = weigh fl stakes reputations nodes in
      let (k, drawn, h) = draw-IsWeighted seed prev_hash view d some_weight low high in
      let (n, i, e, counts) = weigh-IsStaked stakes reputations nodes k h in
      let stake : Float = get_or n.node_id stakes (zero_float fl) in
      (
        n,
        i,
        drawn ∙ ap some e,
        elim (Bool-cases (lt (zero_float fl) stake)) [
          | inl above ↦ above
          | inr none_held ↦ absurd (
              counts λ r x. no_gain r x stake _ none_held (boosts (get_or n.node_id reputations _)))
        ],
      )
