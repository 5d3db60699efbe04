-- ===== src/Qoi/Machine/Rounds.antt =====
-- `start_round`, `_handle_pre_prepare` and `_handle_prepare` of core/qoi/state_machine.py.
use ai_inference_chain.Prelude.{
  ℕ, suc, ◌+◌, ◌*◌, not, ◌&&◌, Option, none, some, List, [], ◌∷◌, ltb, ◌==◌, if◌then◌else◌, length,
}
use ai_inference_chain.Prelude.Dict.{lookup, insert, contains}
use ai_inference_chain.Blockchain.Constants.{Text}
use ai_inference_chain.Qoi.Quality.{Floats, Response}
use ai_inference_chain.Qoi.Messages.{
  PrePrepareMsg, PrepareMsg, CommitMsg, pre_prepare, prepare, commit,
}
use ai_inference_chain.Qoi.Machine.{
  is_collecting, is_pre_preparing, pre_preparing, preparing, committing, Machine, Reply, nothing,
  raised, sends, is_primary, own_header, is_current,
}
use ai_inference_chain.Qoi.Machine.Voting.{compute_consensus_class}

module _ (fl : Floats) where
  open fl use {Float, lt, eq}

  unfoldable pub reset_round : ℕ → Text → Text → ℕ → Machine fl → Machine fl
  reset_round now request image seq m = record m {
    request_id = request;
    image_hash = image;
    seq = seq;
    phase_start = now;
    pre_prepare_msg = none;
    prepares = [];
    commits = [];
    view_changes = [];
    consensus_class = none;
    node_responses = [];
    outcome = none;
  }

  -- `max(xs)`, and `xs.index(x)`
  unfoldable max_from : Float → List Float → Float
  max_from x [] = x
  max_from x (y ∷ ys) = max_from (if lt x y then y else x) ys

  unfoldable index_of : Float → List Float → Option ℕ
  index_of x [] = none
  index_of x (y ∷ ys) =
      if eq y x then some 0 else elim (index_of x ys) [ none ↦ none | some i ↦ some (suc i) ]

  -- `own_probs.index(max(own_probs))`; `none` where it raises
  unfoldable pub argmax : List Float → Option ℕ
  unfolding max_from index_of
  argmax [] = none
  argmax (x ∷ xs) = index_of (max_from x xs) (x ∷ xs)

  -- `start_round` behind the argmax
  unfoldable pub begin_round : ℕ → List Float → ℕ → Machine fl → Reply fl × Machine fl
  unfolding is_primary
  begin_round now probs c m =
      let m' : Machine fl = record m {
        node_responses = insert m.node_id (c, probs) m.node_responses;
        phase = pre_preparing;
      } in
      let msg : PrePrepareMsg fl = record {
        header = own_header fl now m;
        request_id = m.request_id;
        image_hash = m.image_hash;
        probabilities = probs;
        predicted_class = c;
      } in
      if is_primary fl m
      then (sends (pre_prepare msg), record m' { pre_prepare_msg = some msg })
      else (nothing, m')

  unfoldable pub start_round : ℕ → Text → Text → ℕ → List Float → Machine fl → Reply fl × Machine fl
  unfolding begin_round reset_round
  start_round now request image seq probs m = elim (argmax probs) [
    | none ↦ (raised, reset_round now request image seq m)
    | some c ↦ begin_round now probs c (reset_round now request image seq m)
  ]

  abbrev pub own_response : PrePrepareMsg fl → Machine fl → Response fl
  own_response msg m = elim (lookup m.node_id m.node_responses) [
    | none ↦ (msg.predicted_class, msg.probabilities)
    | some r ↦ r
  ]

  abbrev pub file_pre_prepare : PrePrepareMsg fl → Machine fl → Machine fl
  file_pre_prepare msg m = record m {
    pre_prepare_msg = some msg;
    node_responses =
        insert msg.header.sender_id (msg.predicted_class, msg.probabilities) m.node_responses;
    phase = preparing;
  }

  -- The replica's PREPARE, with its own inference result.
  abbrev pub own_prepare : ℕ → Response fl → Machine fl → PrepareMsg fl
  own_prepare now (c, probs) m = record {
    header = own_header fl now m;
    request_id = m.request_id;
    probabilities = probs;
    predicted_class = c;
  }

  unfoldable send_prepare : PrepareMsg fl → Machine fl → Reply fl × Machine fl
  send_prepare p m = (sends (prepare p), record m { prepares = insert m.node_id p m.prepares })

  unfoldable pub handle_pre_prepare : ℕ → PrePrepareMsg fl → Machine fl → Reply fl × Machine fl
  unfolding send_prepare
  handle_pre_prepare now msg m =
      if is_pre_preparing m.phase
        && (msg.header.sender_id == m.primary_id)
        && is_current fl msg.header m
      then (let m' : Machine fl = file_pre_prepare msg m in
          send_prepare (own_prepare now (own_response msg m') m') m')
      else (nothing, m)

  abbrev pub own_commit : ℕ → ℕ → Machine fl → CommitMsg
  own_commit now c m = record {
    header = own_header fl now m;
    request_id = m.request_id;
    consensus_class = c;
  }

  -- `_handle_prepare` once the message has been filed
  unfoldable pub after_prepare : ℕ → Machine fl → Reply fl × Machine fl
  after_prepare now m =
      if ltb (length m.prepares) (2 * m.f + 1)
      then (nothing, m)
      else elim (compute_consensus_class fl m) [
        | none ↦ (nothing, m)
        | some c ↦ (
          sends (commit (own_commit now c m)),
          record m {
            consensus_class = some c;
            phase = committing;
            commits = insert m.node_id (own_commit now c m) m.commits;
          },
        )
      ]

  abbrev pub file_prepare : PrepareMsg fl → Machine fl → Machine fl
  file_prepare msg m = record m {
    prepares = insert msg.header.sender_id msg m.prepares;
    node_responses =
        insert msg.header.sender_id (msg.predicted_class, msg.probabilities) m.node_responses;
  }

  unfoldable pub handle_prepare : ℕ → PrepareMsg fl → Machine fl → Reply fl × Machine fl
  unfolding after_prepare
  handle_prepare now msg m =
      if is_collecting m.phase
        && is_current fl msg.header m
        && not (contains msg.header.sender_id m.prepares)
      then after_prepare now (file_prepare msg m)
      else (nothing, m)
