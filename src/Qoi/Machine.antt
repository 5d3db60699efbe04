-- ===== src/Qoi/Machine.antt =====
-- core/qoi/state_machine.py: one node's machine for inference rounds. The clock is an argument, in
-- seconds. A handler returns the new machine with its reply, or with the exception that it raised:
-- what it had written by then stays written.
pub mod Voting
pub mod Rounds
pub mod Commits
pub mod ViewChange
pub mod Dispatch
pub mod Tally
pub mod Calls
pub mod Invariant
pub mod Scored
pub mod Agreement
pub mod Election
pub mod Stalls
pub mod Views
pub mod Sample
use ai_inference_chain.Prelude.{
  ℕ, zero, suc, ◌+◌, ◌*◌, Bool, true, false, not, ◌&&◌, ◌||◌, Option, none, some, List, [], ◌∷◌,
  map, ltb, leb, ◌==◌, if◌then◌else◌, length,
}
use ai_inference_chain.Prelude.Dict.{Dict, lookup, insert, contains, values}
use ai_inference_chain.Blockchain.Constants.{
  Text, no_text, empty_text, is_truthy, view_change_timeout,
}
use ai_inference_chain.Qoi.Quality.{
  Floats, Response, RoundResult, compute_round_rewards, zero_float,
}
use ai_inference_chain.Qoi.Messages.{
  Header, Message, PrePrepareMsg, PrepareMsg, CommitMsg, ViewChangeMsg, NewViewMsg, pre_prepare,
  prepare, commit, view_change, new_view, header_of,
}

pub data QoiPhase : Type 0 where
  idle pre_preparing preparing committing committed view_changing : QoiPhase

pub record ConsensusOutcome (fl : Floats) : Type 0 where
  pub request_id : Text
  pub consensus_class : ℕ
  pub view : ℕ
  pub seq : ℕ
  pub primary_id : Text
  pub round_result : RoundResult fl
  pub commit_signatures : List (Text × Text)
  pub elected_quorum : List Text

pub record Machine (fl : Floats) : Type 0 where
  pub node_id : Text
  pub primary_id : Text
  pub f : ℕ
  pub phase : QoiPhase
  pub view : ℕ
  pub seq : ℕ
  pub outcome : Option (ConsensusOutcome fl)
  pub request_id : Text
  pub image_hash : Text
  pub phase_start : ℕ
  pub pre_prepare_msg : Option (PrePrepareMsg fl)
  pub prepares : Dict (PrepareMsg fl)
  pub commits : Dict CommitMsg
  pub view_changes : Dict ViewChangeMsg
  pub consensus_class : Option ℕ
  pub node_responses : Dict (Response fl)
  pub elected_quorum : List Text

pub data Reply (fl : Floats) : Type 0 where
  nothing : Reply fl
  raised : Reply fl
  sends : Message fl → Reply fl

-- `phase in (PRE_PREPARE, PREPARE)`, and tests for one phase
abbrev pub is_collecting : QoiPhase → Bool
is_collecting pre_preparing = true
is_collecting preparing = true
is_collecting _ = false

abbrev pub is_pre_preparing : QoiPhase → Bool
is_pre_preparing pre_preparing = true
is_pre_preparing _ = false

abbrev pub is_committing : QoiPhase → Bool
is_committing committing = true
is_committing _ = false

-- `phase in (IDLE, COMMITTED)`
abbrev pub is_resting : QoiPhase → Bool
is_resting idle = true
is_resting committed = true
is_resting _ = false

module _ (fl : Floats) where
  -- `QoIStateMachine(node_id, primary_id, f)`
  unfoldable pub new_machine : Text → Text → ℕ → Machine fl
  new_machine node primary f = record {
    node_id = node;
    primary_id = primary;
    f = f;
    phase = idle;
    view = 0;
    seq = 0;
    outcome = none;
    request_id = empty_text;
    image_hash = empty_text;
    phase_start = 0;
    pre_prepare_msg = none;
    prepares = [];
    commits = [];
    view_changes = [];
    consensus_class = none;
    node_responses = [];
    elected_quorum = [];
  }

  unfoldable pub is_primary : Machine fl → Bool
  is_primary m = m.node_id == m.primary_id

  unfoldable pub set_elected_quorum : List Text → Machine fl → Machine fl
  set_elected_quorum ids m = record m { elected_quorum = ids }

  -- The header of a message that the machine makes.
  abbrev pub own_header : ℕ → Machine fl → Header
  own_header now m = record {
    view = m.view;
    seq = m.seq;
    sender_id = m.node_id;
    timestamp = now;
    signature = no_text;
  }

  -- `msg.view != self.view or msg.seq != self.seq`, negated
  abbrev pub is_current : Header → Machine fl → Bool
  is_current h m = (h.view == m.view) && (h.seq == m.seq)
