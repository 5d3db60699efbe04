-- ===== src/Qoi/Machine/Calls.antt =====
-- The calls that a node makes to a machine of core/qoi/state_machine.py, and sequences of them.
use ai_inference_chain.Prelude.{ℕ, List, [], ◌∷◌}
use ai_inference_chain.Blockchain.Constants.{Text}
use ai_inference_chain.Qoi.Quality.{Floats}
use ai_inference_chain.Qoi.Messages.{Message}
use ai_inference_chain.Qoi.Machine.{Machine, set_elected_quorum}
use ai_inference_chain.Qoi.Machine.Rounds.{start_round}
use ai_inference_chain.Qoi.Machine.Dispatch.{handle_message, check_timeout}

-- The first number of a call is a reading of the clock.
pub data Call (fl : Floats) : Type 0 where
  elects : List Text → Call fl
  starts : ℕ → Text → Text → ℕ → List fl.Float → Call fl
  hears : ℕ → Message fl → Call fl
  ticks : ℕ → Call fl

module _ (fl : Floats) where
  unfoldable pub step : Machine fl → Call fl → Machine fl
  step m (elects ids) = set_elected_quorum fl ids m
  step m (starts now request image seq probs) = (start_round fl now request image seq probs m).1
  step m (hears now msg) = (handle_message fl now msg m).1
  step m (ticks now) = (check_timeout fl now m).1

  unfoldable pub run : Machine fl → List (Call fl) → Machine fl
  run m [] = m
  run m (c ∷ cs) = run (step m c) cs
