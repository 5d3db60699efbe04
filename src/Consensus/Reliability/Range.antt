-- ===== src/Consensus/Reliability/Range.antt =====
-- The range of the scores of core/consensus/reliability.py, and what its counters count.
use ai_inference_chain.Prelude.{
  ℕ, ◌+◌, ◌≤◌, ◌<◌, ◌≡◌, refl, inl, inr, Bool, true, false, Bool-cases, Option-cases, List, [], ◌∷◌,
  All, if_elim, ◌==◌, arith,
}
use ai_inference_chain.Prelude.Dict.{Dict, lookup, insert}
use ai_inference_chain.Blockchain.Constants.{Text}
use ai_inference_chain.Qoi.Quality.{Floats, NodeQoiResult, RoundResult, min_float}
use ai_inference_chain.Consensus.Reliability.{
  NodeReliability, Scores, ChallengeRow, new_reliability, reliability_of, get_score, clamp,
  after_round, update_nodes, update_from_round, after_challenge, update_rows, update_from_challenge,
}

-- What IEEE comparison gives for numbers: no NaN is among them.
pub record IsOrdered (fl : Floats) : Type 0 where
  pub irrefl : (a : fl.Float) → fl.lt a a ≡ false
  pub asym : (a b : fl.Float) → fl.lt a b ≡ true → fl.lt b a ≡ false
  pub trans : (a b c : fl.Float) → fl.lt a b ≡ true → fl.lt b c ≡ true → fl.lt a c ≡ true
  pub numerals : (a b : ℕ) → a < b → fl.lt (fl.thousandths a) (fl.thousandths b) ≡ true

module _ {V : Type 0} where
  All-insert :
      (P : ℕ × V → Type 0) (k : ℕ) (v : V) (d : Dict V)
      → ((j : ℕ) → P (j, v))
      → All P d
      → All P (insert k v d)
  All-insert P k v [] p h = (p k, tt)
  All-insert P k v ((j, w) ∷ d) p h =
      if_elim (λ e. All P e) (k == j) _ _ (λ q. (p j, h.1)) (λ q. (h.0, All-insert P k v d p h.1))

-- From 0.01 to 1.5, and the counters add up.
pub record InRange (fl : Floats) (rec : NodeReliability fl) : Type 0 where
  pub at_least : fl.lt rec.score (fl.thousandths 10) ≡ false
  pub at_most : fl.lt (fl.thousandths 1500) rec.score ≡ false
  pub counted : rec.rounds ≡ rec.honest_rounds + rec.byzantine_rounds
  pub penalties : rec.challenge_penalties ≤ rec.challenge_rounds

-- Every record of the registry.
abbrev pub AllInRange : (fl : Floats) → Scores fl → Type 0
AllInRange fl d = All (λ e. InRange fl e.1) d

module _ (fl : Floats) (order : IsOrdered fl) where
  clamp-at_most :
      (low : ℕ) (x : fl.Float)
      → low < 1500
      → fl.lt (fl.thousandths 1500) (clamp fl (fl.thousandths low) x) ≡ false
  clamp-at_most low x l =
      let top : fl.Float = fl.thousandths 1500 in
      if_elim (λ r. fl.lt top r ≡ false) (fl.lt (fl.thousandths low) (min_float fl top x))
        (min_float fl top x) (fl.thousandths low)
        (λ e.
          if_elim (λ r. fl.lt top r ≡ false) (fl.lt x top) x top (λ f. order.asym _ _ f)
            (λ f. order.irrefl _))
        (λ e. order.asym _ _ (order.numerals low 1500 l))

  clamp-at_least :
      (low : ℕ) (x : fl.Float)
      → fl.lt (clamp fl (fl.thousandths low) x) (fl.thousandths low) ≡ false
  clamp-at_least low x =
      let capped : fl.Float = min_float fl (fl.thousandths 1500) x in
      if_elim (λ r. fl.lt r (fl.thousandths low) ≡ false) (fl.lt (fl.thousandths low) capped) capped
        (fl.thousandths low) (λ e. order.asym _ _ e) (λ e. order.irrefl _)

  -- What is at least 0.05 is at least 0.01.
  at_least_10 :
      (x : fl.Float) → fl.lt x (fl.thousandths 50) ≡ false → fl.lt x (fl.thousandths 10) ≡ false
  at_least_10 x h = elim (Bool-cases (fl.lt x (fl.thousandths 10))) [
    | inl e ↦ ground (arith, h, order.trans x _ _ e (order.numerals 10 50 (omega arith)))
    | inr e ↦ e
  ]

  new_reliability-InRange : (k : Text) → InRange fl (new_reliability fl k)
  new_reliability-InRange k = record {
    at_least = order.asym _ _ (order.numerals 10 1000 (omega arith));
    at_most = order.asym _ _ (order.numerals 1000 1500 (omega arith));
    counted = refl;
    penalties = omega arith;
  }

  reliability_of-InRange :
      (k : Text) (d : Scores fl) → AllInRange fl d → InRange fl (reliability_of fl k d)
  reliability_of-InRange k [] h = new_reliability-InRange k
  reliability_of-InRange k ((j, rec) ∷ d) h = elim (Bool-cases (k == j)) [
    | inl e ↦ rw (reliability_of, e) h.0
    | inr e ↦ rw (reliability_of, e) (reliability_of-InRange k d h.1)
  ]

  after_round-InRange :
      (alpha : fl.Float) (nr : NodeQoiResult fl) (rec : NodeReliability fl)
      → InRange fl rec
      → InRange fl (after_round fl alpha nr rec)
  after_round-InRange alpha nr rec h = record {
    at_least = at_least_10 _ (clamp-at_least 50 _);
    at_most = clamp-at_most 50 _ (omega arith);
    counted = ground (arith, h.counted);
    penalties = h.penalties;
  }

  after_challenge-InRange :
      (alpha : fl.Float) (row : ChallengeRow fl) (rec : NodeReliability fl)
      → InRange fl rec
      → InRange fl (after_challenge fl alpha row rec)
  after_challenge-InRange alpha row rec h = record {
    at_least = clamp-at_least 10 _;
    at_most = clamp-at_most 10 _ (omega arith);
    counted = h.counted;
    penalties = ground (arith, h.penalties);
  }

  update_nodes-AllInRange :
      (alpha : fl.Float) (nrs : List (NodeQoiResult fl)) (d : Scores fl)
      → AllInRange fl d
      → AllInRange fl (update_nodes fl alpha nrs d)
  unfolding update_nodes
  update_nodes-AllInRange alpha [] d h = h
  update_nodes-AllInRange alpha (nr ∷ nrs) d h = update_nodes-AllInRange alpha nrs _ (
      All-insert _ nr.node_id _ d
        (λ j. after_round-InRange alpha nr _ (reliability_of-InRange nr.node_id d h)) h)

  update_rows-AllInRange :
      (alpha : fl.Float) (rows : List (ChallengeRow fl)) (d : Scores fl)
      → AllInRange fl d
      → AllInRange fl (update_rows fl alpha rows d)
  unfolding update_rows
  update_rows-AllInRange alpha [] d h = h
  update_rows-AllInRange alpha (row ∷ rows) d h = update_rows-AllInRange alpha rows _ (
      All-insert _ row.node_id _ d
        (λ j. after_challenge-InRange alpha row _ (reliability_of-InRange row.node_id d h)) h)

-- A call of the registry, with its alpha.
pub data Update (fl : Floats) : Type 0 where
  round : fl.Float → RoundResult fl → Update fl
  challenge : fl.Float → Bool → List (ChallengeRow fl) → Update fl

module _ (fl : Floats) where
  unfoldable pub update : Scores fl → Update fl → Scores fl
  update d (round alpha r) = update_from_round fl alpha r d
  update d (challenge alpha marked rows) = update_from_challenge fl alpha marked rows d

  unfoldable pub updates : Scores fl → List (Update fl) → Scores fl
  unfolding update
  updates d [] = d
  updates d (u ∷ us) = updates (update d u) us

  update-AllInRange :
      IsOrdered fl → (u : Update fl) (d : Scores fl) → AllInRange fl d → AllInRange fl (update d u)
  unfolding update update_from_round update_from_challenge
  update-AllInRange order (round alpha r) d h =
      update_nodes-AllInRange fl order alpha r.node_results d h
  update-AllInRange order (challenge alpha marked rows) d h =
      if_elim (AllInRange fl) marked _ _ (λ e. update_rows-AllInRange fl order alpha rows d h)
        (λ e. h)

  updates-AllInRange :
      IsOrdered fl
      → (us : List (Update fl)) (d : Scores fl) → AllInRange fl d
      → AllInRange fl (updates d us)
  unfolding updates
  updates-AllInRange order [] d h = h
  updates-AllInRange order (u ∷ us) d h =
      updates-AllInRange order us (update d u) (update-AllInRange order u d h)

  get_score_lem : (k : Text) (d : Scores fl) → get_score fl k d ≡ (reliability_of fl k d).score
  unfolding get_score
  get_score_lem k d = elim (Option-cases (lookup k d)) [
    | inl e ↦ rw (get_score, reliability_of, e) refl
    | inr (r, e) ↦ rw (get_score, reliability_of, e) refl
  ]

  -- After any rounds and challenges, with whatever alphas and scores, the score of a node, known or
  -- not, is from 0.01 to 1.5, its rounds are its honest and its Byzantine ones, and it has no more
  -- penalties than challenges. Condition: comparison orders the numbers.
  pub updates-InRange :
      IsOrdered fl
      → (us : List (Update fl)) (k : Text)
      → InRange fl (reliability_of fl k (updates [] us))
        × (get_score fl k (updates [] us) ≡ (reliability_of fl k (updates [] us)).score)
  updates-InRange order us k = (
    reliability_of-InRange fl order k (updates [] us) (updates-AllInRange order us [] tt),
    get_score_lem k (updates [] us),
  )
