-- ===== src/Qoi/ViewChanger.antt =====
-- core/qoi/view_changer.py. A ViewChangeState is an object: who waits for a view change keeps the
-- object it has found, also when the round's entry is cleared. Objects stand in a heap, each under
-- its place, and `_view_changes` maps a round to a place. Events are those that were published, calls
-- those of the callback, each in their order; times are milliseconds.
pub mod Objects
pub mod Counts
pub mod Votes
pub mod Wait
mod Tests
use ai_inference_chain.Prelude.{
  ℕ, zero, suc, ◌+◌, ◌*◌, ◌/◌, ◌-◌, Bool, true, false, ◌&&◌, Option, none, some, List, [], ◌∷◌,
  ◌++◌, length, get_elem?, leb, ltb, not, if◌then◌else◌,
}
use ai_inference_chain.Prelude.Int.{ℤ, pos, negsuc, ◌+ℤ◌, ◌-ℤ◌, leb_ℤ}
use ai_inference_chain.Prelude.Dict.{Dict, lookup, insert, erase, contains}
use ai_inference_chain.Blockchain.Constants.{Text}

pub record ViewChangeState : Type 0 where
  pub round_id : Text
  pub old_view : ℤ
  pub new_view : ℤ
  pub started_at : ℕ
  pub view_change_votes : Dict Bool
  pub new_view_msgs : Dict Bool
  pub completed : Bool

-- `2 * f + 1` with `f = (total_replicas - 1) // 3`, which is -1 of no replica
abbrev pub votes_needed : ℕ → ℤ
votes_needed zero = negsuc 0
votes_needed (suc n) = pos (2 * (n / 3) + 1)

-- The two kinds of events that are published.
pub data Event : Type 0 where
  view_change_event : Text → Text → ℤ → Event
  new_view_event : Text → ℤ → Event

-- A changer with whether it has an event bus and a callback, and what they have received.
pub record ViewChanger : Type 0 where
  pub node_id : Text
  pub total_replicas : ℕ
  pub event_bus : Bool
  pub on_view_changed : Bool
  pub view_changes : Dict ℕ
  pub heap : List ViewChangeState
  pub published : List Event
  pub called : List (Text × ℤ)

abbrev pub new_changer : Text → ℕ → Bool → ViewChanger
new_changer node_id total_replicas event_bus = record {
  node_id = node_id;
  total_replicas = total_replicas;
  event_bus = event_bus;
  on_view_changed = false;
  view_changes = [];
  heap = [];
  published = [];
  called = [];
}

unfoldable pub set_view_changed_callback : ViewChanger → ViewChanger
set_view_changed_callback c = record c { on_view_changed = true }

-- A write to the object at a place.
abbrev pub set_at {ℓ} : {A : Type ℓ} → ℕ → A → List A → List A
set_at i x [] = []
set_at zero x (y ∷ ys) = x ∷ ys
set_at (suc i) x (y ∷ ys) = y ∷ set_at i x ys

-- `self._view_changes[round_id] = ViewChangeState(...)`
abbrev pub begin : ℕ → Text → ℤ → ℤ → ViewChanger → ViewChanger
begin now k old new c = record c {
  view_changes = insert k (length c.heap) c.view_changes;
  heap =
      c.heap
      ++ record {
        round_id = k;
        old_view = old;
        new_view = new;
        started_at = now;
        view_change_votes = [];
        new_view_msgs = [];
        completed = false;
      }
        ∷ [];
}

-- `bus.publish`, where there is a bus
abbrev pub publish : Bool → Event → ViewChanger → ViewChanger
publish bus e c = if bus then record c { published = c.published ++ e ∷ [] } else c

-- The callback, where there is one.
abbrev pub call_back : Text → ℤ → ViewChanger → ViewChanger
call_back k view c =
    if c.on_view_changed then record c { called = c.called ++ (k, view) ∷ [] } else c

-- `initiate_view_change` up to its wait: no view change is in progress, or it waits for an object.
-- `bus` is whether a bus is given as an argument.
unfoldable pub initiate_view_change : ℕ → Bool → Text → ℤ → ViewChanger → Option ℕ × ViewChanger
initiate_view_change now bus k old c = if contains k c.view_changes then (none, c) else (
  some (length c.heap),
  publish (if bus then true else c.event_bus) (view_change_event c.node_id k (old +ℤ pos 1))
      (begin now k old (old +ℤ pos 1) c),
)

-- The data of a VIEW_CHANGE message: what is absent, or empty where it is an id, is none.
pub record ViewChangeData : Type 0 where
  pub round_id : Option Text
  pub node_id : Option Text
  pub new_view : Option ℤ

-- `state.view_change_votes[node_id] = True`, where a node is given
abbrev pub with_vote : Option Text → ViewChangeState → ViewChangeState
with_vote none s = s
with_vote (some node) s = record s { view_change_votes = insert node true s.view_change_votes }

-- Whether the view change can be finalized.
abbrev pub is_final : ℕ → ViewChangeState → Bool
is_final n s = leb_ℤ (votes_needed n) (pos (length s.view_change_votes)) && not s.completed

-- `state.completed = True`, the NEW_VIEW event and the callback
unfoldable pub complete : ℕ → Text → ℤ → ViewChangeState → ViewChanger → ViewChanger
complete i k view s c = call_back k view (
    publish c.event_bus (new_view_event k view)
      (record c { heap = set_at i (record s { completed = true }) c.heap }))

-- The object with the vote, and what follows the vote.
unfoldable pub settle : ℕ → Text → ℤ → ViewChangeState → ViewChanger → ViewChanger
settle i k view s c =
    if is_final c.total_replicas s
    then complete i k view s c
    else record c { heap = set_at i s c.heap }

unfoldable pub file_vote : ℕ → Text → Option Text → ℤ → ViewChanger → ViewChanger
file_vote i k node view c = elim (get_elem? c.heap i) [
  | none ↦ c
  | some s ↦ settle i k view (with_vote node s) c
]

abbrev pub ensure : ℕ → Text → ℤ → ViewChanger → ViewChanger
ensure now k view c = if contains k c.view_changes then c else begin now k (view -ℤ pos 1) view c

unfoldable pub receive : ℕ → Text → Option Text → ℤ → ViewChanger → ViewChanger
receive now k node view c =
    let c' : ViewChanger = ensure now k view c in
    elim (lookup k c'.view_changes) [ none ↦ c' | some i ↦ file_vote i k node view c' ]

unfoldable pub handle_view_change_msg : ℕ → ViewChangeData → ViewChanger → ViewChanger
handle_view_change_msg now d c = elim d.round_id [
  | none ↦ c
  | some k ↦ elim d.new_view [ none ↦ c | some view ↦ receive now k d.node_id view c ]
]

unfoldable pub get_view_change_state : Text → ViewChanger → Option ViewChangeState
get_view_change_state k c = elim (lookup k c.view_changes) [
  | none ↦ none
  | some i ↦ get_elem? c.heap i
]

unfoldable pub clear_view_change : Text → ViewChanger → ViewChanger
clear_view_change k c =
    if contains k c.view_changes then record c { view_changes = erase k c.view_changes } else c

-- How a wait ends.
pub data Waited : Type 0 where
  completed_in_time : Waited
  timed_out : Waited

-- `_wait_for_view_change`: what it reads at its n-th look, whether the object is completed and the
-- time. The fuel bounds the looks.
unfoldable pub wait_for_view_change : ℕ → ℕ → (ℕ → Bool × ℕ) → ℕ → ℕ → Option Waited
wait_for_view_change zero timeout look start i = none
wait_for_view_change (suc fuel) timeout look start i =
    let rest = wait_for_view_change fuel timeout look start (i + 1) in
    if (look i).0
    then some completed_in_time
    else if ltb (start + timeout) (look i).1
    then some timed_out
    else rest
