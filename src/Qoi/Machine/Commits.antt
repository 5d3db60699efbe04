-- ===== src/Qoi/Machine/Commits.antt =====
-- `_handle_commit` and `_finalise_round` of core/qoi/state_machine.py.
use ai_inference_chain.Prelude.{
  ℕ, ◌+◌, ◌*◌, Bool, false, not, ◌&&◌, Option, none, some, List, [], ◌∷◌, ltb, ◌==◌, if◌then◌else◌,
  length,
}
use ai_inference_chain.Prelude.Dict.{Dict, insert, contains}
use ai_inference_chain.Blockchain.Constants.{Text, empty_text, is_truthy}
use ai_inference_chain.Qoi.Quality.{Floats, compute_round_rewards, zero_float}
use ai_inference_chain.Qoi.Messages.{CommitMsg}
use ai_inference_chain.Qoi.Machine.{
  is_committing, committed, Machine, Reply, nothing, raised, is_current,
}

module _ (fl : Floats) where
  -- `msg.signature or ""`, for each commit
  abbrev pub signatures : Dict CommitMsg → List (Text × Text)
  signatures [] = []
  signatures ((n, c) ∷ d) =
      (n, if is_truthy c.header.signature then c.header.signature else empty_text) ∷ signatures d

  unfoldable pub finalise_round : ℕ → Machine fl → Reply fl × Machine fl
  finalise_round c m =
      elim (compute_round_rewards fl m.request_id m.primary_id c m.node_responses (zero_float fl)) [
        | none ↦ (raised, m)
        | some r ↦ (
          nothing,
          record m {
            outcome = some (record {
              request_id = m.request_id;
              consensus_class = c;
              view = m.view;
              seq = m.seq;
              primary_id = m.primary_id;
              round_result = r;
              commit_signatures = signatures m.commits;
              elected_quorum = m.elected_quorum;
            });
            phase = committed;
          },
        )
      ]

  -- `msg.consensus_class == self._consensus_class`
  abbrev pub is_class : ℕ → Option ℕ → Bool
  is_class c none = false
  is_class c (some d) = c == d

  abbrev pub file_commit : CommitMsg → Machine fl → Machine fl
  file_commit msg m = record m { commits = insert msg.header.sender_id msg m.commits }

  unfoldable pub handle_commit : CommitMsg → Machine fl → Reply fl × Machine fl
  handle_commit msg m =
      if is_committing m.phase
        && is_current fl msg.header m
        && not (contains msg.header.sender_id m.commits)
        && is_class msg.consensus_class m.consensus_class
      then (if ltb (length (file_commit msg m).commits) (2 * m.f + 1)
          then (nothing, file_commit msg m)
          else finalise_round msg.consensus_class (file_commit msg m))
      else (nothing, m)
