-- ===== src/Qoi/Quality/Lengths.antt =====
-- When core/qoi/quality.py raises, and when it does not: vectors of different lengths or of one.
use ai_inference_chain.Prelude.{
  ℕ, zero, suc, All, subst, sym, Option-cases, ◌≡◌, ◌≢◌, refl, ap, ◌∙◌, inl, inr, none, some, List,
  [], ◌∷◌, ◌++◌, map, length, arith,
}
use ai_inference_chain.Prelude.Dict.{Dict}
use ai_inference_chain.Blockchain.Constants.{Text}
use ai_inference_chain.Qoi.Quality.{
  Floats, Response, honest, vectors, compute_round_rewards, reference, aggregate_probabilities,
  add_vectors, sums, replicate, zero_float, score_all, cosine_similarity, RoundResult, round_result,
}

module _ (fl : Floats) where
  add_vectors-mismatch :
      (n : ℕ) (agg p : List fl.Float) (before after : List (List fl.Float))
      → length p ≢ n
      → add_vectors fl n agg (before ++ p ∷ after) ≡ none
  unfolding add_vectors
  add_vectors-mismatch n agg p [] after ne = ground arith
  add_vectors-mismatch n agg p (q ∷ before) after ne =
      ground (arith, add_vectors-mismatch n (sums fl agg q) p before after ne)

  aggregate-mismatch :
      (q p : List fl.Float) (before after : List (List fl.Float))
      → length p ≢ length q
      → aggregate_probabilities fl (q ∷ before ++ p ∷ after) ≡ none
  unfolding aggregate_probabilities
  aggregate-mismatch q p before after ne = ground (
    arith,
    add_vectors-mismatch (length q) (replicate fl (length q) (zero_float fl)) p (q ∷ before) after
        ne,
  )

  reference-mismatch :
      (c : ℕ) (d : Dict (Response fl)) (first : Text × Response fl) (rest : Dict (Response fl))
      (p : List fl.Float) (before after : List (List fl.Float))
      → honest fl c d ≡ first ∷ rest
      → vectors fl rest ≡ before ++ p ∷ after
      → length p ≢ length (first.1).1
      → reference fl c d ≡ none
  unfolding reference
  reference-mismatch c d first rest p before after e v ne =
      rw (e, reference)
        (ap (λ vs. aggregate_probabilities fl vs)
            (ap (λ x. vectors fl x) e ∙ ap (◌∷◌ (first.1).1) v)
          ∙ aggregate-mismatch (first.1).1 p before after ne)

  -- One honest answer whose vector has another length than the first honest one makes the scoring
  -- of the whole round raise.
  pub compute_round_rewards-mismatch :
      (request primary : Text) (c : ℕ) (d : Dict (Response fl)) (fees : fl.Float)
      (first : Text × Response fl) (rest : Dict (Response fl)) (p : List fl.Float)
      (before after : List (List fl.Float))
      → honest fl c d ≡ first ∷ rest
      → vectors fl rest ≡ before ++ p ∷ after
      → length p ≢ length (first.1).1
      → compute_round_rewards fl request primary c d fees ≡ none
  unfolding compute_round_rewards
  compute_round_rewards-mismatch request primary c d fees first rest p before after e v ne =
      ground (arith, reference-mismatch c d first rest p before after e v ne)

  length-sums :
      (n : ℕ) (xs ys : List fl.Float) → length xs ≡ n → length ys ≡ n → length (sums fl xs ys) ≡ n
  unfolding sums
  length-sums n [] ys e f = e
  length-sums n (x ∷ xs) [] e f = absurd (omega (arith, e, f))
  length-sums zero (x ∷ xs) (y ∷ ys) e f = absurd (omega (arith, e))
  length-sums (suc n) (x ∷ xs) (y ∷ ys) e f =
      ap suc (length-sums n xs ys (omega (arith, e)) (omega (arith, f)))

  length-replicate : (n : ℕ) (x : fl.Float) → length (replicate fl n x) ≡ n
  unfolding replicate
  length-replicate zero x = refl
  length-replicate (suc n) x = ap suc (length-replicate n x)

  -- Each vector has the length `n`.
  abbrev pub AreOfLength : ℕ → List (List fl.Float) → Type 0
  AreOfLength n ps = All (λ p. length p ≡ n) ps

  add_vectors-total :
      (n : ℕ) (agg : List fl.Float) (ps : List (List fl.Float))
      → length agg ≡ n
      → AreOfLength n ps
      → (r : List fl.Float) × (add_vectors fl n agg ps ≡ some r) × (length r ≡ n)
  unfolding add_vectors
  add_vectors-total n agg [] e h = (agg, refl, e)
  add_vectors-total n agg (p ∷ ps) e h =
      let (r, g, k) = add_vectors-total n (sums fl agg p) ps (length-sums n agg p e h.0) h.1 in
      (r, ground (arith, h.0, g), k)

  length-means :
      (k : ℕ) (xs : List fl.Float) → length (map (λ x. fl.div x (fl.of_ℕ k)) xs) ≡ length xs
  length-means k [] = refl
  length-means k (x ∷ xs) = ap suc (length-means k xs)

  aggregate-total :
      (p : List fl.Float) (ps : List (List fl.Float))
      → AreOfLength (length p) ps
      → (r : List fl.Float) × (aggregate_probabilities fl (p ∷ ps) ≡ some r) × (length r ≡ length p)
  unfolding aggregate_probabilities
  aggregate-total p ps h =
      let (agg, g, k) =
        add_vectors-total (length p) (replicate fl (length p) (zero_float fl)) (p ∷ ps)
          (length-replicate (length p) (zero_float fl)) (refl, h) in
      (
        map (λ x. fl.div x (fl.of_ℕ (length (p ∷ ps)))) agg,
        rw g refl,
        length-means (length (p ∷ ps)) agg ∙ k,
      )

  cosine-total :
      (a b : List fl.Float)
      → length a ≡ length b
      → (x : fl.Float) × (cosine_similarity fl a b ≡ some x)
  unfolding cosine_similarity
  cosine-total a b e = elim (Option-cases (cosine_similarity fl a b)) [
    | inl n ↦ absurd (ground (arith, n, e))
    | inr x ↦ x
  ]

  score_all-total :
      (ref : List fl.Float) (d : Dict (Response fl))
      → AreOfLength (length ref) (vectors fl d)
      → (s : Dict fl.Float) × (score_all fl ref d ≡ some s)
  unfolding score_all
  score_all-total ref [] h = ([], refl)
  score_all-total ref ((k, r) ∷ d) h =
      let (rest, g) = score_all-total ref d h.1 in
      let (x, f) = cosine-total r.1 ref h.0 in ((k, x) ∷ rest, rw (f, g) refl)

  reference-honest :
      (c : ℕ) (d : Dict (Response fl)) (first : Text × Response fl) (rest : Dict (Response fl))
      → honest fl c d ≡ first ∷ rest
      → reference fl c d ≡ aggregate_probabilities fl (vectors fl (first ∷ rest))
  unfolding reference
  reference-honest c d first rest e =
      rw (e, reference) (ap (λ x. aggregate_probabilities fl (vectors fl x)) e)

  -- A round in which some node answered the consensus class, and all that did gave vectors of one
  -- length, is always scored.
  pub compute_round_rewards-total :
      (request primary : Text) (c n : ℕ) (d : Dict (Response fl)) (fees : fl.Float)
      (first : Text × Response fl) (rest : Dict (Response fl))
      → honest fl c d ≡ first ∷ rest
      → AreOfLength n (vectors fl (honest fl c d))
      → (r : RoundResult fl) × (compute_round_rewards fl request primary c d fees ≡ some r)
  unfolding compute_round_rewards
  compute_round_rewards-total request primary c n d fees first rest e h =
      let h' = subst (λ x. AreOfLength n (vectors fl x)) e h in
      let (ref, g, k) =
        aggregate-total (first.1).1 (vectors fl rest)
          (subst (λ l. AreOfLength l (vectors fl rest)) (sym h'.0) h'.1) in
      let (s, j) =
        score_all-total ref (honest fl c d)
          (subst (λ l. AreOfLength l (vectors fl (honest fl c d))) (sym (k ∙ h'.0)) h) in
      (
        round_result fl request primary c d (fl.add fees (fl.thousandths 10000)) ref s,
        rw (reference-honest c d first rest e ∙ g, j) refl,
      )
