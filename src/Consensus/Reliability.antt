-- ===== src/Consensus/Reliability.antt =====
-- core/consensus/reliability.py, over the parameter for float arithmetic.
pub mod Range
mod Tests
use ai_inference_chain.Prelude.{
  ℕ, ◌+◌, Bool, true, false, not, Option, none, some, List, [], ◌∷◌, if◌then◌else◌,
}
use ai_inference_chain.Prelude.Dict.{Dict, lookup, insert}
use ai_inference_chain.Blockchain.Constants.{Text}
use ai_inference_chain.Qoi.Quality.{
  Floats, NodeQoiResult, RoundResult, min_float, max_float, zero_float,
}

pub record NodeReliability (fl : Floats) : Type 0 where
  pub node_id : Text
  pub score : fl.Float
  pub rounds : ℕ
  pub honest_rounds : ℕ
  pub byzantine_rounds : ℕ
  pub challenge_rounds : ℕ
  pub challenge_penalties : ℕ

-- `_scores`
abbrev pub Scores : Floats → Type 0
Scores fl = Dict (NodeReliability fl)

-- A row of a challenge record, which has more fields that are not read.
pub record ChallengeRow (fl : Floats) : Type 0 where
  pub node_id : Text
  pub is_honest : Bool
  pub knowledge_score : Option fl.Float

module _ (fl : Floats) where
  abbrev new_reliability : Text → NodeReliability fl
  new_reliability k = record {
    node_id = k;
    score = fl.thousandths 1000;
    rounds = 0;
    honest_rounds = 0;
    byzantine_rounds = 0;
    challenge_rounds = 0;
    challenge_penalties = 0;
  }

  -- `self._scores.get(node_id)`, or a new record
  abbrev pub reliability_of : Text → Scores fl → NodeReliability fl
  reliability_of k d = elim (lookup k d) [ none ↦ new_reliability k | some rec ↦ rec ]

  unfoldable pub get_score : Text → Scores fl → fl.Float
  get_score k d = elim (lookup k d) [ none ↦ fl.thousandths 1000 | some rec ↦ rec.score ]

  -- `max(low, min(1.5, x))`
  abbrev pub clamp : fl.Float → fl.Float → fl.Float
  clamp low x = max_float fl low (min_float fl (fl.thousandths 1500) x)

  -- `(1.0 - alpha) * score + alpha * target`
  abbrev pub blend : fl.Float → fl.Float → fl.Float → fl.Float
  blend alpha score target =
      fl.add (fl.mul (fl.add (fl.thousandths 1000) (fl.neg alpha)) score) (fl.mul alpha target)

  -- The target of a round: `float(max(0.0, min(1.0, qoi_score)))` for an honest node.
  abbrev pub round_target : NodeQoiResult fl → fl.Float
  round_target nr =
      if nr.is_honest
      then fl.add (fl.thousandths 600) (
          fl.mul (fl.thousandths 600)
            (max_float fl (zero_float fl) (min_float fl (fl.thousandths 1000) nr.qoi_score)))
      else fl.thousandths 200

  abbrev pub after_round : fl.Float → NodeQoiResult fl → NodeReliability fl → NodeReliability fl
  after_round alpha nr rec = record rec {
    rounds = rec.rounds + 1;
    honest_rounds = if nr.is_honest then rec.honest_rounds + 1 else rec.honest_rounds;
    byzantine_rounds = if nr.is_honest then rec.byzantine_rounds else rec.byzantine_rounds + 1;
    score = clamp (fl.thousandths 50) (blend alpha rec.score (round_target nr));
  }

  unfoldable pub update_nodes : fl.Float → List (NodeQoiResult fl) → Scores fl → Scores fl
  update_nodes alpha [] d = d
  update_nodes alpha (nr ∷ nrs) d =
      update_nodes alpha nrs
        (insert nr.node_id (after_round alpha nr (reliability_of nr.node_id d)) d)

  unfoldable pub update_from_round : fl.Float → RoundResult fl → Scores fl → Scores fl
  unfolding update_nodes
  update_from_round alpha r d = update_nodes alpha r.node_results d

  -- `row.knowledge_score`, or 0.5
  abbrev pub knowledge : ChallengeRow fl → fl.Float
  knowledge row = elim row.knowledge_score [ none ↦ fl.thousandths 500 | some k ↦ k ]

  abbrev pub challenge_target : ChallengeRow fl → fl.Float
  challenge_target row =
      if row.is_honest
      then fl.add (fl.thousandths 650) (fl.mul (fl.thousandths 550) (knowledge row))
      else fl.add (fl.thousandths 250) (fl.neg (fl.mul (fl.thousandths 200) (knowledge row)))

  -- A dishonest answer with a knowledge of at least 0.7.
  abbrev pub is_penalised : ChallengeRow fl → Bool
  is_penalised row =
      if row.is_honest then false else not (fl.lt (knowledge row) (fl.thousandths 700))

  abbrev pub after_challenge : fl.Float → ChallengeRow fl → NodeReliability fl → NodeReliability fl
  after_challenge alpha row rec = record rec {
    challenge_rounds = rec.challenge_rounds + 1;
    challenge_penalties =
        if is_penalised row then rec.challenge_penalties + 1 else rec.challenge_penalties;
    score = clamp (fl.thousandths 10) (blend alpha rec.score (challenge_target row));
  }

  unfoldable pub update_rows : fl.Float → List (ChallengeRow fl) → Scores fl → Scores fl
  update_rows alpha [] d = d
  update_rows alpha (row ∷ rows) d =
      update_rows alpha rows
        (insert row.node_id (after_challenge alpha row (reliability_of row.node_id d)) d)

  -- `update_from_challenge` of a record with this flag and these rows
  unfoldable pub update_from_challenge :
      fl.Float → Bool → List (ChallengeRow fl) → Scores fl → Scores fl
  unfolding update_rows
  update_from_challenge alpha challenge rows d = if challenge then update_rows alpha rows d else d

  unfoldable pub summary : Text → Scores fl → NodeReliability fl
  summary k d = reliability_of k d
