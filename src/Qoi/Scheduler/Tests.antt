-- ===== src/Qoi/Scheduler/Tests.antt =====
-- The theorem on core/qoi/message_scheduler.py at three messages: one is not due, one raises.
use ai_inference_chain.Prelude.{ℕ, ◌≡◌, Bool, not, none, [], ◌∷◌, ◌==◌, arith}
use ai_inference_chain.Prelude.Dict.{Dict}
use ai_inference_chain.Qoi.Scheduler.{ScheduledMessage, deliver}
use ai_inference_chain.Qoi.Scheduler.Delivery.{quiet, deliver-quiet}

abbrev message : ℕ → ℕ → ScheduledMessage
message k delay = record {
  message_id = k;
  event = 0;
  delay = delay;
  scheduled_at = 100;
  delivered_at = none;
}

abbrev queue : Dict ScheduledMessage
queue = (1, message 1 10) ∷ (2, message 2 500) ∷ (3, message 3 0) ∷ []

-- The handler of the third message raises.
abbrev returns : ScheduledMessage → Bool
returns m = not (m.message_id == 3)

deliver-quiet_example :
    (deliver 200 (quiet returns) queue
      ≡ (message 1 10 ∷ message 3 0 ∷ [], (2, message 2 500) ∷ (3, message 3 0) ∷ []))
    × ((deliver 200 (quiet returns) (deliver 200 (quiet returns) queue).1).0 ≡ message 3 0 ∷ [])
deliver-quiet_example = deliver-quiet 200 returns queue (
  (λ e. ground (arith, e), (λ e. ground (arith, e), tt)),
  ((λ e. ground (arith, e), tt), (tt, tt)),
)
