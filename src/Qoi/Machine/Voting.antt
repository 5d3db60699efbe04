-- ===== src/Qoi/Machine/Voting.antt =====
-- `_compute_consensus_class` of core/qoi/state_machine.py.
use ai_inference_chain.Prelude.{ℕ, ◌+◌, ◌*◌, Option, none, some, List, [], ◌∷◌, leb, if◌then◌else◌}
use ai_inference_chain.Prelude.Dict.{Dict, lookup, insert, values}
use ai_inference_chain.Qoi.Quality.{Floats}
use ai_inference_chain.Qoi.Messages.{PrepareMsg}
use ai_inference_chain.Qoi.Machine.{Machine}

-- `_compute_consensus_class`: the tally of the classes, in the order of their first votes, and the
-- first class that has the threshold
abbrev pub count_vote : ℕ → Dict ℕ → Dict ℕ
count_vote c votes = elim (lookup c votes) [
  | none ↦ insert c 1 votes
  | some n ↦ insert c (n + 1) votes
]

unfoldable pub first_above : ℕ → Dict ℕ → Option ℕ
first_above t [] = none
first_above t ((c, n) ∷ votes) = if leb t n then some c else first_above t votes

module _ (fl : Floats) where
  unfoldable pub tally : List (PrepareMsg fl) → Dict ℕ → Dict ℕ
  tally [] votes = votes
  tally (m ∷ ms) votes = tally ms (count_vote m.predicted_class votes)

  unfoldable pub compute_consensus_class : Machine fl → Option ℕ
  unfolding tally first_above
  compute_consensus_class m = first_above (2 * m.f + 1) (tally (values m.prepares) [])
