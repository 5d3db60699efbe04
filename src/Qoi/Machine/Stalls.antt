-- ===== src/Qoi/Machine/Stalls.antt =====
-- How one message can stop a round of core/qoi/state_machine.py.
use ai_inference_chain.Prelude.{
  ℕ, ◌≤◌, ◌<◌, ◌≡◌, inl, inr, Bool, true, false, Option, none, some, List, [], ◌∷◌, ◌==◌, arith,
  Bool-cases,
}
use ai_inference_chain.Prelude.Dict.{contains}
use ai_inference_chain.Qoi.Quality.{Floats, compute_round_rewards, zero_float}
use ai_inference_chain.Qoi.Messages.{
  Message, PrepareMsg, CommitMsg, ViewChangeMsg, NewViewMsg, pre_prepare, prepare, commit,
  view_change, new_view,
}
use ai_inference_chain.Qoi.Machine.{
  Machine, nothing, committing, view_changing, pre_preparing, ConsensusOutcome,
}
use ai_inference_chain.Qoi.Machine.Rounds.{handle_pre_prepare, handle_prepare}
use ai_inference_chain.Qoi.Machine.Commits.{handle_commit, finalise_round}
use ai_inference_chain.Qoi.Machine.ViewChange.{handle_view_change, handle_new_view}
use ai_inference_chain.Qoi.Machine.Dispatch.{handle_message}
use ai_inference_chain.Qoi.Machine.Calls.{Call, hears, step, run}

module _ (fl : Floats) where
  -- PRE_PREPARE, PREPARE and COMMIT, the messages of a round.
  abbrev pub is_of_round : Message fl → Bool
  is_of_round (pre_prepare msg) = true
  is_of_round (prepare msg) = true
  is_of_round (commit msg) = true
  is_of_round _ = false

  view_changing-drops :
      (now : ℕ) (r : Message fl) (m : Machine fl)
      → is_of_round r ≡ true
      → m.phase ≡ view_changing
      → handle_message fl now r m ≡ (nothing, m)
  unfolding handle_message handle_pre_prepare handle_prepare handle_commit
  view_changing-drops now (pre_prepare msg) m e p = ground (arith, p)
  view_changing-drops now (prepare msg) m e p = ground (arith, p)
  view_changing-drops now (commit msg) m e p = ground (arith, p)
  view_changing-drops now (view_change msg) m e p = cc
  view_changing-drops now (new_view msg) m e p = cc

  -- One VIEW_CHANGE for a later view, from any sender, stops a round in any phase, a committed one
  -- too: the machine goes to the phase VIEW_CHANGE, with its view and its primary, and drops every
  -- PRE_PREPARE, PREPARE and COMMIT that comes next. Conditions: f is at least 1, no VIEW_CHANGE is on
  -- file, and the message is not of an earlier view.
  view_change-stalls :
      (now now' : ℕ) (msg : ViewChangeMsg) (r : Message fl) (m : Machine fl)
      → is_of_round r ≡ true
      → 1 ≤ m.f
      → m.view_changes ≡ []
      → m.view ≤ msg.header.view
      → m.view < msg.new_view
      → let m' = (handle_message fl now (view_change msg) m).1 in
        (m'.phase ≡ view_changing)
        × (m'.view ≡ m.view)
        × (m'.primary_id ≡ m.primary_id)
        × (handle_message fl now' r m' ≡ (nothing, m'))
  unfolding handle_message handle_view_change
  view_change-stalls now now' msg r m q h e l g =
      let m' = (handle_message fl now (view_change msg) m).1 in
      let p : m'.phase ≡ view_changing = ground (arith, e, h, l, g) in
      (p, ground (arith, e, h, l, g), ground (arith, e, h, l, g), view_changing-drops now' r m' q p)

  -- A NEW_VIEW for a later view does not clear the PREPAREs of the old one: in the new view, a
  -- machine drops every PREPARE of a node whose PREPARE of the old view is on file.
  new_view-keeps_prepares :
      (now now' : ℕ) (v : NewViewMsg) (msg : PrepareMsg fl) (m : Machine fl)
      → m.view ≤ v.header.view
      → m.view < v.new_view
      → contains msg.header.sender_id m.prepares ≡ true
      → let m' = (handle_message fl now (new_view v) m).1 in
        (m'.view ≡ v.new_view)
        × (m'.phase ≡ pre_preparing)
        × (handle_message fl now' (prepare msg) m' ≡ (nothing, m'))
  unfolding handle_message handle_new_view handle_prepare
  new_view-keeps_prepares now now' v msg m l g e =
      (ground (arith, l, g), ground (arith, l, g), ground (arith, l, g, e))

  -- The responses on file cannot be scored for the class c that the machine is committing to.
  pub record IsUnscored (c : ℕ) (o : Option (ConsensusOutcome fl)) (m : Machine fl) : Type 0 where
    pub same_phase : m.phase ≡ committing
    pub same_class : m.consensus_class ≡ some c
    pub same_outcome : m.outcome ≡ o
    pub fails :
        compute_round_rewards fl m.request_id m.primary_id c m.node_responses (zero_float fl) ≡ none

  commit-IsUnscored :
      (c : ℕ) (o : Option (ConsensusOutcome fl)) (now : ℕ) (msg : CommitMsg) (m : Machine fl)
      → IsUnscored c o m
      → IsUnscored c o (handle_message fl now (commit msg) m).1
  unfolding handle_message handle_commit finalise_round
  commit-IsUnscored c o now msg m i = elim (Bool-cases (msg.consensus_class == c)) [
    | inl e ↦ ground (arith, e, i, i.fails, i.same_class)
    | inr e ↦ ground (arith, e, i, i.fails, i.same_class)
  ]

  abbrev pub hear_commits : List (ℕ × CommitMsg) → List (Call fl)
  hear_commits [] = []
  hear_commits ((now, msg) ∷ cs) = hears now (commit msg) ∷ hear_commits cs

  -- If the responses on file cannot be scored for the class that a machine is committing to, then
  -- no number of COMMITs finishes the round: the phase stays COMMIT and the outcome what it was.
  run-IsUnscored :
      (c : ℕ) (o : Option (ConsensusOutcome fl)) (m : Machine fl) (cs : List (ℕ × CommitMsg))
      → IsUnscored c o m
      → IsUnscored c o (run fl m (hear_commits cs))
  unfolding run step
  run-IsUnscored c o m [] i = i
  run-IsUnscored c o m ((now, msg) ∷ cs) i =
      run-IsUnscored c o (handle_message fl now (commit msg) m).1 cs
        (commit-IsUnscored c o now msg m i)
