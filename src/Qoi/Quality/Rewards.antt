-- ===== src/Qoi/Quality/Rewards.antt =====
-- Who is rewarded and who is punished by core/qoi/quality.py, for any float arithmetic.
use ai_inference_chain.Prelude.{
  ℕ, ◌≡◌, ◌≢◌, ◌⊎◌, refl, subst, inl, inr, true, false, none, some, List, [], ◌∷◌, map, ◌==◌,
  if◌then◌else◌, All, All-map, arith, Bool-cases, Option-cases,
}
use ai_inference_chain.Prelude.Dict.{
  Dict, lookup, values, keys, IsDistinct, lookup-Fresh, lookup-insert,
}
use ai_inference_chain.Blockchain.Constants.{Text}
use ai_inference_chain.Qoi.Quality.{
  Floats, Response, round_result, map_values, cosine_similarity, NodeQoiResult, RoundResult,
  zero_float, honest, byzantine, score_all, shares, with_bonus, honest_deltas, byzantine_deltas,
  node_result, compute_round_rewards, reference,
}

-- In a dict every entry is what its key leads to.
All-lookup {ℓ} :
    {V : Type ℓ} (d : Dict V) → IsDistinct (keys d) → All (λ e. lookup e.0 d ≡ some e.1) d
All-lookup [] h = tt
All-lookup ((k, v) ∷ d) h =
    (ground arith, All-map (λ e l. ground (arith, l, lookup-Fresh k d h.0)) d (All-lookup d h.1))

All-map_results {ℓ κ μ} :
    {A : Type ℓ} {B : Type κ} (P : B → Type μ) (f : A → B) (xs : List A)
    → All (λ x. P (f x)) xs
    → All P (map f xs)
All-map_results P f [] h = tt
All-map_results P f (x ∷ xs) h = (h.0, All-map_results P f xs h.1)

module _ (fl : Floats) where
  lookup-honest :
      (c n : ℕ) (d : Dict (Response fl))
      → IsDistinct (keys d)
      → lookup n (honest fl c d)
        ≡ elim (lookup n d) [ none ↦ none | some r ↦ if r.0 == c then some r else none ]
  lookup-honest c n [] h = refl
  lookup-honest c n ((k, r) ∷ d) h = ground (arith, lookup-honest c n d h.1, lookup-Fresh k d h.0)

  lookup-byzantine :
      (c n : ℕ) (d : Dict (Response fl))
      → IsDistinct (keys d)
      → lookup n (byzantine fl c d)
        ≡ elim (lookup n d) [ none ↦ none | some r ↦ if r.0 == c then none else some r ]
  lookup-byzantine c n [] h = refl
  lookup-byzantine c n ((k, r) ∷ d) h =
      ground (arith, lookup-byzantine c n d h.1, lookup-Fresh k d h.0)

  lookup-score_all :
      (ref : List fl.Float) (n : ℕ) (d : Dict (Response fl)) (scores : Dict fl.Float)
      → score_all fl ref d ≡ some scores
      → lookup n d ≡ none
      → lookup n scores ≡ none
  unfolding score_all
  lookup-score_all ref n [] scores e gone = ground arith
  lookup-score_all ref n ((k, r) ∷ d) scores e gone =
      elim (Option-cases (cosine_similarity fl r.1 ref)) [
        | inl f ↦ ground arith
        | inr (s, f) ↦ elim (Option-cases (score_all fl ref d)) [
          | inl g ↦ ground arith
          | inr (rest, g) ↦ ground (arith, lookup-score_all ref n d rest g)
        ]
      ]

  lookup-map_values :
      (f : fl.Float → fl.Float) (n : ℕ) (d : Dict fl.Float)
      → lookup n d ≡ none
      → lookup n (map_values fl f d) ≡ none
  unfolding map_values
  lookup-map_values f n [] gone = refl
  lookup-map_values f n ((k, x) ∷ d) gone = ground (arith, lookup-map_values f n d)

  lookup-shares :
      (pool : fl.Float) (n : ℕ) (scores : Dict fl.Float)
      → lookup n scores ≡ none
      → lookup n (shares fl pool scores) ≡ none
  unfolding shares
  lookup-shares pool n scores gone =
      elim (Bool-cases (fl.lt (zero_float fl) (fl.sum (values scores)))) [
        | inl e ↦ rw e (lookup-map_values _ n scores gone)
        | inr e ↦ rw e (lookup-map_values _ n scores gone)
      ]

  lookup-with_bonus :
      (primary n : ℕ) (rewards : Dict fl.Float)
      → lookup n rewards ≡ none
      → lookup n (with_bonus fl primary rewards) ≡ none
  unfolding with_bonus
  lookup-with_bonus primary n rewards gone = elim (Option-cases (lookup primary rewards)) [
    | inl e ↦ ground (arith, e, gone)
    | inr (x, e) ↦
        ground (arith, e, gone, lookup-insert n primary (fl.add x (fl.thousandths 2000)) rewards)
  ]

  lookup-honest_deltas :
      (primary n : ℕ) (scores : Dict fl.Float)
      → lookup n scores ≡ none
      → lookup n (honest_deltas fl primary scores) ≡ none
  unfolding honest_deltas
  lookup-honest_deltas primary n [] gone = refl
  lookup-honest_deltas primary n ((k, s) ∷ d) gone =
      ground (arith, lookup-honest_deltas primary n d)

  lookup-byzantine_deltas :
      (n : ℕ) (d : Dict (Response fl)) (r : Response fl)
      → lookup n d ≡ some r
      → lookup n (byzantine_deltas fl d) ≡ some (fl.neg (fl.thousandths 300))
  unfolding byzantine_deltas
  lookup-byzantine_deltas n [] r e = cc
  lookup-byzantine_deltas n ((k, s) ∷ d) r e = ground (arith, lookup-byzantine_deltas n d r)

  -- What a round decides on one node: a node whose class is the consensus class is honest, and any
  -- other is not, earns nothing, scores nothing and loses 0.3 of reputation.
  abbrev pub IsJudged : ℕ → NodeQoiResult fl → Type 0
  IsJudged c r =
      ((r.predicted_class ≡ c) × (r.is_honest ≡ true))
      ⊎ ((r.predicted_class ≢ c)
          × (r.is_honest ≡ false)
          × (r.token_reward ≡ zero_float fl)
          × (r.qoi_score ≡ zero_float fl)
          × (r.rep_delta ≡ fl.neg (fl.thousandths 300)))

  module _ (c primary : ℕ) (pool : fl.Float) (d : Dict (Response fl)) (ref : List fl.Float)
      (scores : Dict fl.Float) (distinct : IsDistinct (keys d))
      (scored : score_all fl ref (honest fl c d) ≡ some scores) where
    judged :
        (e : Text × Response fl)
        → lookup e.0 d ≡ some e.1
        → IsJudged c (
            node_result fl c d scores
              (with_bonus fl primary (shares fl pool scores))
              (honest_deltas fl primary scores)
              (byzantine_deltas fl (byzantine fl c d))
              e)
    unfolding node_result
    judged (n, (k, ps)) found = elim (Bool-cases (k == c)) [
      | inl same ↦ inl (ground (arith, same), ground (arith, same, lookup-honest c n d distinct))
      | inr other ↦
          let out : lookup n (honest fl c d) ≡ none =
            ground (arith, other, lookup-honest c n d distinct) in
          let unscored = lookup-score_all ref n (honest fl c d) scores scored out in
          let unpaid =
            lookup-with_bonus primary n (shares fl pool scores)
              (lookup-shares pool n scores unscored) in
          let undeltad = lookup-honest_deltas primary n scores unscored in
          let punished =
            lookup-byzantine_deltas n (byzantine fl c d) (k, ps)
              (ground (arith, other, lookup-byzantine c n d distinct)) in
          inr (
            ground (arith, other),
            ground (arith, out),
            ground (arith, unpaid),
            ground (arith, unscored),
            ground (arith, undeltad, punished),
          )
    ]

  node_ids :
      (f : Text × Response fl → NodeQoiResult fl)
      → ((x : Text × Response fl) → (f x).node_id ≡ x.0)
      → (d : Dict (Response fl)) → map (λ y. y.node_id) (map f d) ≡ keys d
  node_ids f h [] = refl
  node_ids f h ((k, r) ∷ d) = rw (h (k, r), node_ids f h d)

  -- A round that is scored judges every response, in order: the nodes are those that answered,
  -- honest exactly if their class is the consensus class, and the others get no tokens and a
  -- reputation delta of -0.3. Condition: the responses are a dict, with no key twice.
  pub compute_round_rewards-IsJudged :
      (request primary : Text) (c : ℕ) (d : Dict (Response fl)) (fees : fl.Float)
      (r : RoundResult fl)
      → IsDistinct (keys d)
      → compute_round_rewards fl request primary c d fees ≡ some r
      → (map (λ x. x.node_id) r.node_results ≡ keys d) × All (IsJudged c) r.node_results
  unfolding compute_round_rewards node_result
  compute_round_rewards-IsJudged request primary c d fees r distinct e =
      elim (Option-cases (reference fl c d)) [
        | inl f ↦ absurd (ground (arith, e, f))
        | inr (ref, f) ↦ elim (Option-cases (score_all fl ref (honest fl c d))) [
          | inl g ↦ absurd (ground (arith, e, f, g))
          | inr (scores, g) ↦
              let pool : fl.Float = fl.add fees (fl.thousandths 10000) in
              let same : round_result fl request primary c d pool ref scores ≡ r =
                ground (arith, e, f, g) in
              subst
                (λ x.
                  (map (λ y. y.node_id) x.node_results ≡ keys d) × All (IsJudged c) x.node_results)
                same
                (
                  node_ids
                      (node_result fl c d scores (with_bonus fl primary (shares fl pool scores))
                        (honest_deltas fl primary scores) (byzantine_deltas fl (byzantine fl c d)))
                      (λ x. refl) d,
                  All-map_results (IsJudged c) _ d (
                      All-map (λ x found. judged c primary pool d ref scores distinct g x found) d
                        (All-lookup d distinct)),
                )
        ]
      ]
