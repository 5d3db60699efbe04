-- ===== src/Qoi/Scheduler.antt =====
-- core/qoi/message_scheduler.py. Times are milliseconds. A handler is an argument: whether it returns,
-- and what it does to the messages that are scheduled; a message's id, a cut uuid, is an argument too.
pub mod Delivery
mod Tests
use ai_inference_chain.Prelude.{
  ℕ, ◌+◌, Bool, true, false, Option, none, some, List, [], ◌∷◌, length, leb, if◌then◌else◌, is_some,
}
use ai_inference_chain.Prelude.Dict.{Dict, insert, erase}
use ai_inference_chain.Blockchain.Constants.{Text, Blob}

-- The handler is in the type `Handler` below.
pub record ScheduledMessage : Type 0 where
  pub message_id : Text
  pub event : Blob
  pub delay : ℕ
  pub scheduled_at : ℕ
  pub delivered_at : Option ℕ

abbrev pub delivery_time : ScheduledMessage → ℕ
delivery_time m = m.scheduled_at + m.delay

abbrev pub is_delivered : ScheduledMessage → Bool
is_delivered m = is_some m.delivered_at

-- `_scheduled`, and whether the background task runs
pub record Scheduler : Type 0 where
  pub scheduled : Dict ScheduledMessage
  pub running : Bool

abbrev pub new_scheduler : Scheduler
new_scheduler = record { scheduled = []; running = false }

unfoldable pub start_background : Scheduler → Scheduler
start_background s = if s.running then s else record s { running = true }

-- `schedule_deliver` at a time, of the message with a new id
unfoldable pub schedule_deliver : ℕ → Text → Blob → ℕ → Scheduler → Text × Scheduler
unfolding start_background
schedule_deliver now id event delay s =
    let msg : ScheduledMessage = record {
      message_id = id;
      event = event;
      delay = delay;
      scheduled_at = now;
      delivered_at = none;
    } in
    let s' : Scheduler = record s { scheduled = insert id msg s.scheduled } in
    (id, if s'.running then s' else start_background s')

-- Whether the handler of a message returns, and the messages that are scheduled then.
abbrev pub Handler : Type 0
Handler = ScheduledMessage → Dict ScheduledMessage → Bool × Dict ScheduledMessage

-- One round of `_delivery_loop` over a copy of the messages: those whose handlers were called, and
-- what stays scheduled. A message whose handler raises stays.
unfoldable pub deliver_each :
    ℕ
    → Handler
    → Dict ScheduledMessage
    → Dict ScheduledMessage
    → List ScheduledMessage × Dict ScheduledMessage
deliver_each now handle [] queue = ([], queue)
deliver_each now handle ((k, m) ∷ todo) queue =
    let skipped = deliver_each now handle todo queue in
    let called = handle m queue in
    let (later, rest) =
      deliver_each now handle todo (if called.0 then erase k called.1 else called.1) in
    if is_delivered m
    then skipped
    else if leb (delivery_time m) now
    then (m ∷ later, rest)
    else skipped

unfoldable pub deliver :
    ℕ → Handler → Dict ScheduledMessage → List ScheduledMessage × Dict ScheduledMessage
unfolding deliver_each
deliver now handle queue = deliver_each now handle queue queue

unfoldable pub stop : Scheduler → Scheduler
stop s = record s { running = false }

unfoldable pub get_scheduled_count : Scheduler → ℕ
get_scheduled_count s = length s.scheduled
