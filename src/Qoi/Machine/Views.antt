-- ===== src/Qoi/Machine/Views.antt =====
-- View changes of core/qoi/state_machine.py: the order of views, and what a new view keeps.
use ai_inference_chain.Prelude.{ℕ, ◌≤◌, ◌≡◌, inl, inr, List, [], ◌∷◌, arith, Option-cases}
use ai_inference_chain.Prelude.Dict.{Dict, insert, values}
use ai_inference_chain.Qoi.Quality.{Floats, compute_round_rewards, zero_float}
use ai_inference_chain.Qoi.Messages.{
  Message, PrepareMsg, CommitMsg, PrePrepareMsg, ViewChangeMsg, NewViewMsg, pre_prepare, prepare,
  commit, view_change, new_view,
}
use ai_inference_chain.Qoi.Machine.{Machine, set_elected_quorum}
use ai_inference_chain.Qoi.Machine.Voting.{compute_consensus_class}
use ai_inference_chain.Qoi.Machine.Rounds.{
  start_round, argmax, begin_round, reset_round, handle_pre_prepare, handle_prepare, after_prepare,
  file_prepare,
}
use ai_inference_chain.Qoi.Machine.Commits.{handle_commit, file_commit, finalise_round}
use ai_inference_chain.Qoi.Machine.ViewChange.{handle_view_change, handle_new_view, max_view}
use ai_inference_chain.Qoi.Machine.Dispatch.{handle_message, check_timeout}
use ai_inference_chain.Qoi.Machine.Calls.{Call, elects, starts, hears, ticks, step, run}

max_view-le : (n : ℕ) (ms : List ViewChangeMsg) → n ≤ max_view n ms
unfolding max_view
max_view-le n [] = omega arith
max_view-le n (m ∷ ms) = ground (arith, max_view-le n ms, max_view-le m.new_view ms)

-- The greatest view of a dict is at least that of the message just filed.
max_view-insert :
    (n k : ℕ) (m : ViewChangeMsg) (d : Dict ViewChangeMsg)
    → m.new_view ≤ max_view n (values (insert k m d))
unfolding max_view
max_view-insert n k m [] = ground (arith)
max_view-insert n k m ((j, v) ∷ d) = ground (
  arith,
  max_view-insert n k m d,
  max_view-insert v.new_view k m d,
  max_view-le m.new_view (values d),
  max_view-le n (values d),
)

module _ (fl : Floats) where
  start_round-view :
      (now request image seq : ℕ) (probs : List fl.Float) (m : Machine fl)
      → (start_round fl now request image seq probs m).1.view ≡ m.view
  unfolding start_round begin_round reset_round
  start_round-view now request image seq probs m = elim (Option-cases (argmax fl probs)) [
    | inl e ↦ ground (arith, e)
    | inr (c, e) ↦ ground (arith, e)
  ]

  handle_pre_prepare-view :
      (now : ℕ) (msg : PrePrepareMsg fl) (m : Machine fl)
      → (handle_pre_prepare fl now msg m).1.view ≡ m.view
  unfolding handle_pre_prepare
  handle_pre_prepare-view now msg m = ground arith

  after_prepare-view : (now : ℕ) (m : Machine fl) → (after_prepare fl now m).1.view ≡ m.view
  unfolding after_prepare
  after_prepare-view now m = elim (Option-cases (compute_consensus_class fl m)) [
    | inl e ↦ ground (arith, e)
    | inr (c, e) ↦ ground (arith, e)
  ]

  handle_prepare-view :
      (now : ℕ) (msg : PrepareMsg fl) (m : Machine fl)
      → (handle_prepare fl now msg m).1.view ≡ m.view
  unfolding handle_prepare
  handle_prepare-view now msg m = ground (arith, after_prepare-view now (file_prepare fl msg m))

  finalise_round-view : (c : ℕ) (m : Machine fl) → (finalise_round fl c m).1.view ≡ m.view
  unfolding finalise_round
  finalise_round-view c m =
      elim (Option-cases
        (compute_round_rewards fl m.request_id m.primary_id c m.node_responses (zero_float fl))) [
          | inl e ↦ ground (arith, e)
          | inr (r, e) ↦ ground (arith, e)
        ]

  handle_commit-view : (msg : CommitMsg) (m : Machine fl) → (handle_commit fl msg m).1.view ≡ m.view
  unfolding handle_commit
  handle_commit-view msg m =
      ground (arith, finalise_round-view msg.consensus_class (file_commit fl msg m))

  handle_view_change-view :
      (now : ℕ) (msg : ViewChangeMsg) (m : Machine fl)
      → m.view ≤ (handle_view_change fl now msg m).1.view
  unfolding handle_view_change
  handle_view_change-view now msg m =
      ground (arith, max_view-insert 0 msg.header.sender_id msg m.view_changes)

  handle_new_view-view :
      (msg : NewViewMsg) (m : Machine fl) → m.view ≤ (handle_new_view fl msg m).1.view
  unfolding handle_new_view
  handle_new_view-view msg m = ground arith

  check_timeout-view : (now : ℕ) (m : Machine fl) → (check_timeout fl now m).1.view ≡ m.view
  unfolding check_timeout
  check_timeout-view now m = ground arith

  handle_message-view :
      (now : ℕ) (msg : Message fl) (m : Machine fl) → m.view ≤ (handle_message fl now msg m).1.view
  unfolding handle_message
  handle_message-view now (pre_prepare msg) m = ground (arith, handle_pre_prepare-view now msg m)
  handle_message-view now (prepare msg) m = ground (arith, handle_prepare-view now msg m)
  handle_message-view now (commit msg) m = ground (arith, handle_commit-view msg m)
  handle_message-view now (view_change msg) m = ground (arith, handle_view_change-view now msg m)
  handle_message-view now (new_view msg) m = ground (arith, handle_new_view-view msg m)

  step-view : (m : Machine fl) (c : Call fl) → m.view ≤ (step fl m c).view
  unfolding step set_elected_quorum
  step-view m (elects ids) = omega arith
  step-view m (starts now request image seq probs) =
      omega (arith, start_round-view now request image seq probs m)
  step-view m (hears now msg) = handle_message-view now msg m
  step-view m (ticks now) = omega (arith, check_timeout-view now m)

  -- Whatever a machine is sent, its view never decreases.
  pub run-view_le : (m : Machine fl) (cs : List (Call fl)) → m.view ≤ (run fl m cs).view
  unfolding run
  run-view_le m [] = omega arith
  run-view_le m (c ∷ cs) = omega (arith, step-view m c, run-view_le (step fl m c) cs)
