-- ===== src/Qoi/Machine/Tally.antt =====
-- `_compute_consensus_class` of core/qoi/state_machine.py against a plain count of votes.
use ai_inference_chain.Prelude.{
  ℕ, ◌+◌, ◌*◌, ◌≤◌, ◌<◌, ◌≡◌, inl, inr, none, some, List, [], ◌∷◌, ◌==◌, if◌then◌else◌, arith,
  Option-cases,
}
use ai_inference_chain.Prelude.Dict.{
  Dict, lookup, values, keys, get_or, IsDistinct, insert-IsDistinct, lookup-insert, lookup-Fresh,
}
use ai_inference_chain.Qoi.Quality.{Floats}
use ai_inference_chain.Qoi.Messages.{PrepareMsg}
use ai_inference_chain.Qoi.Machine.{Machine}
use ai_inference_chain.Qoi.Machine.Voting.{count_vote, tally, first_above, compute_consensus_class}

module _ (fl : Floats) where
  -- The number of messages that name the class.
  abbrev pub votes_for : ℕ → List (PrepareMsg fl) → ℕ
  votes_for c [] = 0
  votes_for c (m ∷ ms) = (if m.predicted_class == c then 1 else 0) + votes_for c ms

  count_vote-count :
      (c k : ℕ) (votes : Dict ℕ)
      → get_or c (count_vote k votes) 0 ≡ (if k == c then 1 else 0) + get_or c votes 0
  count_vote-count c k votes = elim (Option-cases (lookup k votes)) [
    | inl e ↦ ground (arith, e, lookup-insert c k 1 votes)
    | inr (n, e) ↦ ground (arith, e, lookup-insert c k (n + 1) votes)
  ]

  count_vote-IsDistinct :
      (k : ℕ) (votes : Dict ℕ) → IsDistinct (keys votes) → IsDistinct (keys (count_vote k votes))
  count_vote-IsDistinct k votes h = elim (Option-cases (lookup k votes)) [
    | inl e ↦ ground (arith, e, insert-IsDistinct k 1 votes h)
    | inr (n, e) ↦ ground (arith, e, insert-IsDistinct k (n + 1) votes h)
  ]

  tally-count :
      (c : ℕ) (ms : List (PrepareMsg fl)) (votes : Dict ℕ)
      → get_or c (tally fl ms votes) 0 ≡ votes_for c ms + get_or c votes 0
  unfolding tally
  tally-count c [] votes = omega arith
  tally-count c (m ∷ ms) votes = omega (
    arith,
    tally-count c ms (count_vote m.predicted_class votes),
    count_vote-count c m.predicted_class votes,
  )

  tally-IsDistinct :
      (ms : List (PrepareMsg fl)) (votes : Dict ℕ)
      → IsDistinct (keys votes)
      → IsDistinct (keys (tally fl ms votes))
  unfolding tally
  tally-IsDistinct [] votes h = h
  tally-IsDistinct (m ∷ ms) votes h =
      tally-IsDistinct ms (count_vote m.predicted_class votes)
        (count_vote-IsDistinct m.predicted_class votes h)

first_above_sound :
    (t c : ℕ) (votes : Dict ℕ)
    → IsDistinct (keys votes)
    → first_above t votes ≡ some c
    → 0 < t
    → t ≤ get_or c votes 0
unfolding first_above
first_above_sound t c [] h e p = cc
first_above_sound t c ((k, n) ∷ votes) h e p =
    ground (arith, first_above_sound t c votes h.1, lookup-Fresh k votes h.0)

first_above_complete :
    (t c : ℕ) (votes : Dict ℕ) → first_above t votes ≡ none → 0 < t → get_or c votes 0 < t
unfolding first_above
first_above_complete t c [] e p = p
first_above_complete t c ((k, n) ∷ votes) e p = ground (arith, first_above_complete t c votes)

module _ (fl : Floats) where
  -- A class that the machine settles on has at least 2f+1 of the PREPAREs on file.
  pub compute_consensus_class_sound :
      (m : Machine fl) (c : ℕ)
      → compute_consensus_class fl m ≡ some c
      → 2 * m.f + 1 ≤ votes_for fl c (values m.prepares)
  unfolding compute_consensus_class
  compute_consensus_class_sound m c e =
      let votes : Dict ℕ = tally fl (values m.prepares) [] in
      let distinct = tally-IsDistinct fl (values m.prepares) [] tt in
      omega (
        arith,
        first_above_sound (2 * m.f + 1) c votes distinct e,
        tally-count fl c (values m.prepares) [],
      )

  -- If the machine settles on no class, then no class has 2f+1 of the PREPAREs on file.
  compute_consensus_class_complete :
      (m : Machine fl) (c : ℕ)
      → compute_consensus_class fl m ≡ none
      → votes_for fl c (values m.prepares) < 2 * m.f + 1
  unfolding compute_consensus_class
  compute_consensus_class_complete m c e = omega (
    arith,
    first_above_complete (2 * m.f + 1) c (tally fl (values m.prepares) []) e (omega arith),
    tally-count fl c (values m.prepares) [],
  )

  -- What the machine settles on: a class has 2f+1 of the PREPAREs on file, and if it settles on
  -- none, then no class has.
  pub compute_consensus_class_lem :
      (m : Machine fl) (c : ℕ)
      → (compute_consensus_class fl m ≡ some c → 2 * m.f + 1 ≤ votes_for fl c (values m.prepares))
        × (compute_consensus_class fl m ≡ none → votes_for fl c (values m.prepares) < 2 * m.f + 1)
  compute_consensus_class_lem m c =
      (compute_consensus_class_sound m c, compute_consensus_class_complete m c)
