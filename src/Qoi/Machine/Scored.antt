-- ===== src/Qoi/Machine/Scored.antt =====
-- The scores of an outcome of core/qoi/state_machine.py are those of the responses on file.
use ai_inference_chain.Prelude.{
  ℕ, ◌≡◌, inl, inr, Option, none, some, List, [], ◌∷◌, arith, Option-cases,
}
use ai_inference_chain.Prelude.Dict.{Dict, keys, IsDistinct, insert-IsDistinct}
use ai_inference_chain.Qoi.Quality.{Floats, Response, compute_round_rewards, zero_float}
use ai_inference_chain.Qoi.Messages.{
  Message, PrepareMsg, CommitMsg, PrePrepareMsg, pre_prepare, prepare, commit, view_change,
  new_view,
}
use ai_inference_chain.Qoi.Machine.{Machine, ConsensusOutcome, new_machine, set_elected_quorum}
use ai_inference_chain.Qoi.Machine.Voting.{compute_consensus_class}
use ai_inference_chain.Qoi.Machine.Rounds.{
  start_round, begin_round, reset_round, argmax, handle_pre_prepare, handle_prepare, after_prepare,
  file_prepare,
}
use ai_inference_chain.Qoi.Machine.Commits.{handle_commit, file_commit, finalise_round}
use ai_inference_chain.Qoi.Machine.ViewChange.{handle_view_change, handle_new_view}
use ai_inference_chain.Qoi.Machine.Dispatch.{handle_message, check_timeout}
use ai_inference_chain.Qoi.Machine.Calls.{Call, elects, starts, hears, ticks, step, run}

module _ (fl : Floats) where
  -- An outcome's scores were computed from a dict of responses.
  pub record IsScored (o : ConsensusOutcome fl) : Type 0 where
    pub responses : Dict (Response fl)
    pub fees : fl.Float
    pub distinct : IsDistinct (keys responses)
    pub scored :
        compute_round_rewards fl o.request_id o.primary_id o.consensus_class responses fees
        ≡ some o.round_result

  abbrev pub OutcomeScored : Option (ConsensusOutcome fl) → Type 0
  OutcomeScored none = Unit {0}
  OutcomeScored (some o) = IsScored o

  abbrev Keeps : Machine fl → Type 0
  Keeps m = IsDistinct (keys m.node_responses) × OutcomeScored m.outcome

  start_round-Keeps :
      (now request image seq : ℕ) (probs : List fl.Float) (m : Machine fl)
      → Keeps (start_round fl now request image seq probs m).1
  unfolding start_round begin_round reset_round
  start_round-Keeps now request image seq probs m = elim (Option-cases (argmax fl probs)) [
    | inl e ↦ ground (arith, e)
    | inr (c, e) ↦ ground (arith, e)
  ]

  handle_pre_prepare-Keeps :
      (now : ℕ) (msg : PrePrepareMsg fl) (m : Machine fl)
      → Keeps m
      → Keeps (handle_pre_prepare fl now msg m).1
  unfolding handle_pre_prepare
  handle_pre_prepare-Keeps now msg m (d, s) = ground (
    arith,
    insert-IsDistinct msg.header.sender_id (msg.predicted_class, msg.probabilities) m.node_responses
        d,
  )

  after_prepare-Keeps : (now : ℕ) (m : Machine fl) → Keeps m → Keeps (after_prepare fl now m).1
  unfolding after_prepare
  after_prepare-Keeps now m (d, s) = elim (Option-cases (compute_consensus_class fl m)) [
    | inl e ↦ ground (arith, e)
    | inr (c, e) ↦ ground (arith, e)
  ]

  handle_prepare-Keeps :
      (now : ℕ) (msg : PrepareMsg fl) (m : Machine fl)
      → Keeps m
      → Keeps (handle_prepare fl now msg m).1
  unfolding handle_prepare
  handle_prepare-Keeps now msg m (d, s) =
      let filed : Keeps (file_prepare fl msg m) = (
        insert-IsDistinct msg.header.sender_id (msg.predicted_class, msg.probabilities)
            m.node_responses d,
        s,
      ) in
      ground (arith, after_prepare-Keeps now (file_prepare fl msg m) filed)

  finalise_round-Keeps : (c : ℕ) (m : Machine fl) → Keeps m → Keeps (finalise_round fl c m).1
  unfolding finalise_round
  finalise_round-Keeps c m (d, s) =
      elim (Option-cases
        (compute_round_rewards fl m.request_id m.primary_id c m.node_responses (zero_float fl))) [
          | inl g ↦ ground (arith, g)
          | inr (r, g) ↦
              rw (Keeps, finalise_round, g)
                (
                  d,
                  record {
                    responses = m.node_responses;
                    fees = zero_float fl;
                    distinct = d;
                    scored = g;
                  },
                )
        ]

  handle_commit-Keeps :
      (msg : CommitMsg) (m : Machine fl) → Keeps m → Keeps (handle_commit fl msg m).1
  unfolding handle_commit
  handle_commit-Keeps msg m k =
      ground (arith, finalise_round-Keeps msg.consensus_class (file_commit fl msg m) k)

  handle_message-Keeps :
      (now : ℕ) (msg : Message fl) (m : Machine fl)
      → Keeps m
      → Keeps (handle_message fl now msg m).1
  unfolding handle_message handle_view_change handle_new_view
  handle_message-Keeps now (pre_prepare msg) m k =
      ground (arith, handle_pre_prepare-Keeps now msg m k)
  handle_message-Keeps now (prepare msg) m k = ground (arith, handle_prepare-Keeps now msg m k)
  handle_message-Keeps now (commit msg) m k = ground (arith, handle_commit-Keeps msg m k)
  handle_message-Keeps now (view_change msg) m k = ground arith
  handle_message-Keeps now (new_view msg) m k = ground arith

  step-Keeps : (m : Machine fl) (c : Call fl) → Keeps m → Keeps (step fl m c)
  unfolding step set_elected_quorum check_timeout
  step-Keeps m (elects ids) k = k
  step-Keeps m (starts now request image seq probs) k =
      start_round-Keeps now request image seq probs m
  step-Keeps m (hears now msg) k = handle_message-Keeps now msg m k
  step-Keeps m (ticks now) k = ground arith

  run-Keeps : (m : Machine fl) (cs : List (Call fl)) → Keeps m → Keeps (run fl m cs)
  unfolding run
  run-Keeps m [] k = k
  run-Keeps m (c ∷ cs) k = run-Keeps (step fl m c) cs (step-Keeps m c k)

  pub run-OutcomeScored :
      (node primary f : ℕ) (cs : List (Call fl))
      → OutcomeScored (run fl (new_machine fl node primary f) cs).outcome
  unfolding new_machine
  run-OutcomeScored node primary f cs = (run-Keeps (new_machine fl node primary f) cs (tt, tt)).1
