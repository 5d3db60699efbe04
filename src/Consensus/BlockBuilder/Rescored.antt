-- ===== src/Consensus/BlockBuilder/Rescored.antt =====
-- `build_qoi_block` of core/consensus/block_builder.py scores the round again, with the block's fees.
use ai_inference_chain.Prelude.{
  ℕ, ◌≡◌, refl, sym, ap, ◌∙◌, inl, inr, some, [], ◌∷◌, ◌++◌, map, arith, All, Option-cases,
}
use mathlib.Core.List.{append-nil, append_assoc}
use ai_inference_chain.Prelude.Dict.{
  Dict, keys, insert, IsDistinct, Fresh, insert-Fresh, Fresh-append,
}
use ai_inference_chain.Blockchain.Constants.{Text}
use ai_inference_chain.Qoi.Quality.{
  Floats, Response, NodeQoiResult, RoundResult, node_result, round_result, compute_round_rewards,
  reference, score_all, honest, shares, with_bonus, honest_deltas, byzantine_deltas, byzantine,
}
use ai_inference_chain.Qoi.Machine.{ConsensusOutcome}
use ai_inference_chain.Qoi.Machine.Scored.{IsScored}
use ai_inference_chain.Consensus.BlockBuilder.{responses_from, rescore}

module _ (fl : Floats) where
  -- The results of a scored round.
  Scored-results :
      (request primary : Text) (c : ℕ) (d : Dict (Response fl)) (fees : fl.Float)
      {r : RoundResult fl}
      → compute_round_rewards fl request primary c d fees ≡ some r
      → (f : Text × Response fl → NodeQoiResult fl) × (r.node_results ≡ map f d)
        × ((e : Text × Response fl)
            → ((f e).node_id ≡ e.0)
              × ((f e).predicted_class ≡ e.1.0)
              × ((f e).probabilities ≡ e.1.1))
        × ((fees' : fl.Float)
            → (r' : RoundResult fl) × (compute_round_rewards fl request primary c d fees'
                ≡ some r'))
  unfolding compute_round_rewards node_result
  Scored-results request primary c d fees {r} h = elim (Option-cases (reference fl c d)) [
    | inl e ↦ absurd (ground (arith, e, h))
    | inr (ref, e) ↦ elim (Option-cases (score_all fl ref (honest fl c d))) [
      | inl g ↦ absurd (ground (arith, e, g, h))
      | inr (scores, g) ↦ (
        node_result fl c d scores
            (with_bonus fl primary (shares fl (fl.add fees (fl.thousandths 10000)) scores))
            (honest_deltas fl primary scores) (byzantine_deltas fl (byzantine fl c d)),
        ground (arith, e, g, h),
        λ x. (refl, refl, refl),
        λ fees'. (
          round_result fl request primary c d (fl.add fees' (fl.thousandths 10000)) ref scores,
          ground (arith, e, g),
        ),
      )
    ]
  ]

  -- What `responses_from` reads of a node's result.
  abbrev entry_of : NodeQoiResult fl → Text × Response fl
  entry_of r = (r.node_id, (r.predicted_class, r.probabilities))

  abbrev NotIn : Dict (Response fl) → Dict (Response fl) → Type 0
  NotIn acc d = All (λ e. Fresh e.0 (keys acc)) d

  NotIn-append :
      (k : Text) (v : Response fl) (acc d : Dict (Response fl))
      → Fresh k (keys d)
      → NotIn acc d
      → NotIn (acc ++ (k, v) ∷ []) d
  NotIn-append k v acc [] f h = tt
  NotIn-append k v acc ((j, w) ∷ d) f h =
      (Fresh-append j k v acc h.0 (λ e. f.0 (sym e)), NotIn-append k v acc d f.1 h.1)

  NotIn-nil : (d : Dict (Response fl)) → NotIn [] d
  NotIn-nil [] = tt
  NotIn-nil (e ∷ d) = (tt, NotIn-nil d)

  -- Collecting the entries of a dict again gives the dict.
  responses_from-entries :
      (f : Text × Response fl → NodeQoiResult fl)
      (same : (e : Text × Response fl)
        → ((f e).node_id ≡ e.0) × ((f e).predicted_class ≡ e.1.0) × ((f e).probabilities ≡ e.1.1))
      (acc d : Dict (Response fl))
      → IsDistinct (keys d)
      → NotIn acc d
      → responses_from fl (map f d) acc ≡ acc ++ d
  responses_from-entries f same acc [] u n = sym (append-nil acc)
  responses_from-entries f same acc ((k, (c, ps)) ∷ d) u n =
      let entry : entry_of (f (k, (c, ps))) ≡ (k, (c, ps)) = ground (arith, same (k, (c, ps))) in
      ap (λ e. responses_from fl (map f d) (insert e.0 e.1 acc)) entry
      ∙ ap (responses_from fl (map f d)) (insert-Fresh k (c, ps) acc n.0)
      ∙ responses_from-entries f same (acc ++ (k, (c, ps)) ∷ []) d u.1
          (NotIn-append k (c, ps) acc d u.0 n.1)
      ∙ append_assoc acc ((k, (c, ps)) ∷ []) d

  -- A round that could be scored once can be scored again.
  pub rescore-total :
      (fees : fl.Float) (o : ConsensusOutcome fl)
      → IsScored fl o
      → (r : RoundResult fl) × (rescore fl fees o
          ≡ some (record o { round_result = r; elected_quorum = [] }))
  unfolding rescore
  rescore-total fees o i =
      let (f, made, same, again) =
        Scored-results o.request_id o.primary_id o.consensus_class i.responses i.fees i.scored in
      let back : responses_from fl o.round_result.node_results [] ≡ i.responses =
        ap (λ rs. responses_from fl rs []) made
        ∙ responses_from-entries f same [] i.responses i.distinct (NotIn-nil i.responses) in
      let (r, e) = again fees in
      (
        r,
        ground (
          arith,
          ap (λ d. compute_round_rewards fl o.request_id o.primary_id o.consensus_class d fees)
              back,
          e,
        ),
      )
