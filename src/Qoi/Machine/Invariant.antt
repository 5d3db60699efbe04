-- ===== src/Qoi/Machine/Invariant.antt =====
-- What holds of every machine of core/qoi/state_machine.py, whatever it has been sent.
use ai_inference_chain.Prelude.{
  ℕ, suc, ◌+◌, ◌*◌, ◌≤◌, ◌≡◌, refl, sym, ap, subst, inl, inr, true, Option, none, some, List, [],
  ◌∷◌, All, length, arith, Bool-cases, Option-cases,
}
use ai_inference_chain.Prelude.Dict.{Dict, values, keys, IsDistinct, insert-IsDistinct}
use ai_inference_chain.Qoi.Quality.{Floats, compute_round_rewards, zero_float}
use ai_inference_chain.Qoi.Messages.{
  Message, PrepareMsg, CommitMsg, PrePrepareMsg, ViewChangeMsg, NewViewMsg, pre_prepare, prepare,
  commit, view_change, new_view,
}
use ai_inference_chain.Qoi.Machine.{
  Machine, QoiPhase, committing, committed, is_collecting, ConsensusOutcome, new_machine,
  set_elected_quorum,
}
use ai_inference_chain.Qoi.Machine.Voting.{compute_consensus_class}
use ai_inference_chain.Qoi.Machine.Rounds.{
  start_round, begin_round, reset_round, argmax, handle_pre_prepare, handle_prepare, after_prepare,
  file_prepare, file_pre_prepare, own_prepare, own_commit, own_response,
}
use ai_inference_chain.Qoi.Machine.Commits.{handle_commit, file_commit, finalise_round, signatures}
use ai_inference_chain.Qoi.Machine.ViewChange.{handle_view_change, handle_new_view}
use ai_inference_chain.Qoi.Machine.Dispatch.{handle_message, check_timeout}
use ai_inference_chain.Qoi.Machine.Tally.{votes_for, compute_consensus_class_sound}
use ai_inference_chain.Qoi.Machine.Calls.{Call, elects, starts, hears, ticks, step, run}

module _ (fl : Floats) where
  -- A class is backed by 2f+1 of the PREPAREs on file.
  abbrev pub Backed : ℕ → Option ℕ → Dict (PrepareMsg fl) → Type 0
  Backed f none d = ⊥
  Backed f (some c) d = 2 * f + 1 ≤ votes_for fl c (values d)

  -- In the phases COMMIT and COMMITTED there is a backed class.
  abbrev pub Decided : ℕ → QoiPhase → Option ℕ → Dict (PrepareMsg fl) → Type 0
  Decided f committing c d = Backed f c d
  Decided f committed c d = Backed f c d
  Decided f _ c d = Unit {0}

  -- An outcome carries the signatures of 2f+1 different nodes.
  abbrev pub Certified : ℕ → Option (ConsensusOutcome fl) → Type 0
  Certified f none = Unit {0}
  Certified f (some o) =
      (2 * f + 1 ≤ length o.commit_signatures) × IsDistinct (keys o.commit_signatures)

  pub record Inv (f : ℕ) (m : Machine fl) : Type 0 where
    pub same_f : m.f ≡ f
    pub distinct_prepares : IsDistinct (keys m.prepares)
    pub distinct_commits : IsDistinct (keys m.commits)
    pub decided : Decided f m.phase m.consensus_class m.prepares
    pub certified : Certified f m.outcome

  keys-signatures : (d : Dict CommitMsg) → keys (signatures fl d) ≡ keys d
  keys-signatures [] = refl
  keys-signatures ((n, c) ∷ d) = ap (◌∷◌ n) (keys-signatures d)

  length-signatures : (d : Dict CommitMsg) → length (signatures fl d) ≡ length d
  length-signatures [] = refl
  length-signatures ((n, c) ∷ d) = ap suc (length-signatures d)

  -- A call of `start_round` whose probabilities have a greatest one does not raise.
  abbrev pub HasArgmax : Call fl → Type 0
  HasArgmax (starts now request image seq probs) = (c : ℕ) × (argmax fl probs ≡ some c)
  HasArgmax _ = Unit {0}

  start_round-Inv :
      (f now request image seq : ℕ) (probs : List fl.Float) (m : Machine fl) (c : ℕ)
      → argmax fl probs ≡ some c
      → Inv f m
      → Inv f (start_round fl now request image seq probs m).1
  unfolding start_round begin_round reset_round
  start_round-Inv f now request image seq probs m c e i = ground (arith, e, i.same_f)

  handle_pre_prepare-Inv :
      (f now : ℕ) (msg : PrePrepareMsg fl) (m : Machine fl)
      → Inv f m
      → Inv f (handle_pre_prepare fl now msg m).1
  unfolding handle_pre_prepare
  handle_pre_prepare-Inv f now msg m i =
      let m' : Machine fl = file_pre_prepare fl msg m in
      ground (
        arith,
        i,
        insert-IsDistinct m.node_id (own_prepare fl now (own_response fl msg m') m') m.prepares
            i.distinct_prepares,
      )

  -- Filing a PREPARE touches neither the phase nor the commits, and is done while collecting.
  file_prepare-Inv :
      (f : ℕ) (msg : PrepareMsg fl) (m : Machine fl)
      → Inv f m
      → is_collecting m.phase ≡ true
      → Inv f (file_prepare fl msg m)
  file_prepare-Inv f msg m i e =
      ground
        (arith, i, e, insert-IsDistinct msg.header.sender_id msg m.prepares i.distinct_prepares)

  after_prepare-Inv : (f now : ℕ) (m : Machine fl) → Inv f m → Inv f (after_prepare fl now m).1
  unfolding after_prepare
  after_prepare-Inv f now m i = elim (Option-cases (compute_consensus_class fl m)) [
    | inl e ↦ ground (arith, e, i)
    | inr (c, e) ↦ ground (
      arith,
      e,
      i,
      compute_consensus_class_sound fl m c e,
      insert-IsDistinct m.node_id (own_commit fl now c m) m.commits i.distinct_commits,
    )
  ]

  handle_prepare-Inv :
      (f now : ℕ) (msg : PrepareMsg fl) (m : Machine fl)
      → Inv f m
      → Inv f (handle_prepare fl now msg m).1
  unfolding handle_prepare
  handle_prepare-Inv f now msg m i = elim (Bool-cases (is_collecting m.phase)) [
    | inl e ↦ ground (
      arith,
      e,
      i,
      after_prepare-Inv f now (file_prepare fl msg m) (file_prepare-Inv f msg m i e),
    )
    | inr e ↦ ground (arith, e, i)
  ]

  finalise_round-Inv :
      (f c : ℕ) (m : Machine fl)
      → Inv f m
      → m.phase ≡ committing
      → 2 * f + 1 ≤ length m.commits
      → Inv f (finalise_round fl c m).1
  unfolding finalise_round
  finalise_round-Inv f c m i e enough =
      let count = length-signatures m.commits in
      let names : IsDistinct (keys (signatures fl m.commits)) =
        subst IsDistinct (sym (keys-signatures m.commits)) i.distinct_commits in
      let backed : Backed f m.consensus_class m.prepares =
        subst (λ ph. Decided f ph m.consensus_class m.prepares) e i.decided in
      elim (Option-cases
        (compute_round_rewards fl m.request_id m.primary_id c m.node_responses (zero_float fl))) [
          | inl g ↦ ground (arith, g, i)
          | inr (r, g) ↦ ground (
            arith, g, i.same_f, i.distinct_prepares, i.distinct_commits, enough, count, names,
            backed,
          )
        ]

  handle_commit-Inv :
      (f : ℕ) (msg : CommitMsg) (m : Machine fl) → Inv f m → Inv f (handle_commit fl msg m).1
  unfolding handle_commit
  handle_commit-Inv f msg m i =
      let m' : Machine fl = file_commit fl msg m in
      let i' : Inv f m' = record {
        same_f = i.same_f;
        distinct_prepares = i.distinct_prepares;
        distinct_commits = insert-IsDistinct msg.header.sender_id msg m.commits i.distinct_commits;
        decided = i.decided;
        certified = i.certified;
      } in
      ground (arith, i, i', i.same_f, finalise_round-Inv f msg.consensus_class m' i')

  handle_view_change-Inv :
      (f now : ℕ) (msg : ViewChangeMsg) (m : Machine fl)
      → Inv f m
      → Inv f (handle_view_change fl now msg m).1
  unfolding handle_view_change
  handle_view_change-Inv f now msg m i = ground (arith, i)

  handle_new_view-Inv :
      (f : ℕ) (msg : NewViewMsg) (m : Machine fl) → Inv f m → Inv f (handle_new_view fl msg m).1
  unfolding handle_new_view
  handle_new_view-Inv f msg m i = ground (arith, i)

  check_timeout-Inv : (f now : ℕ) (m : Machine fl) → Inv f m → Inv f (check_timeout fl now m).1
  unfolding check_timeout
  check_timeout-Inv f now m i = ground (arith, i)

  handle_message-Inv :
      (f now : ℕ) (msg : Message fl) (m : Machine fl)
      → Inv f m
      → Inv f (handle_message fl now msg m).1
  unfolding handle_message
  handle_message-Inv f now (pre_prepare msg) m i =
      ground (arith, i, handle_pre_prepare-Inv f now msg m i)
  handle_message-Inv f now (prepare msg) m i = ground (arith, i, handle_prepare-Inv f now msg m i)
  handle_message-Inv f now (commit msg) m i = ground (arith, i, handle_commit-Inv f msg m i)
  handle_message-Inv f now (view_change msg) m i =
      ground (arith, i, handle_view_change-Inv f now msg m i)
  handle_message-Inv f now (new_view msg) m i = ground (arith, i, handle_new_view-Inv f msg m i)

  step-Inv : (f : ℕ) (m : Machine fl) (c : Call fl) → HasArgmax c → Inv f m → Inv f (step fl m c)
  unfolding step set_elected_quorum
  step-Inv f m (elects ids) h i = ground (arith, i)
  step-Inv f m (starts now request image seq probs) h i =
      start_round-Inv f now request image seq probs m h.0 h.1 i
  step-Inv f m (hears now msg) h i = handle_message-Inv f now msg m i
  step-Inv f m (ticks now) h i = check_timeout-Inv f now m i

  run-Inv :
      (f : ℕ) (m : Machine fl) (cs : List (Call fl))
      → All HasArgmax cs
      → Inv f m
      → Inv f (run fl m cs)
  unfolding run
  run-Inv f m [] h i = i
  run-Inv f m (c ∷ cs) h i = run-Inv f (step fl m c) cs h.1 (step-Inv f m c h.0 i)

  -- Whatever calls a new machine has received, PRE_PREPAREs, PREPAREs, COMMITs and view changes in
  -- any order: its outcome, if it has one, carries the signatures of at least 2f+1 different nodes,
  -- and in the phases COMMIT and COMMITTED its class is backed by at least 2f+1 of the PREPAREs on
  -- file, from different nodes. Condition: each `start_round` gets probabilities with a greatest
  -- one, so that it does not raise.
  pub run-Decided :
      (node primary f : ℕ) (cs : List (Call fl))
      → All HasArgmax cs
      → let m = run fl (new_machine fl node primary f) cs in
        Certified f m.outcome
        × Decided f m.phase m.consensus_class m.prepares
        × IsDistinct (keys m.prepares)
  unfolding new_machine
  run-Decided node primary f cs h =
      let i = run-Inv f (new_machine fl node primary f) cs h (record {
        same_f = refl;
        distinct_prepares = tt;
        distinct_commits = tt;
        decided = tt;
        certified = tt;
      }) in
      (i.certified, i.decided, i.distinct_prepares)
