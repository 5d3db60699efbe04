-- ===== src/Qoi/Timeouts/Tests.antt =====
-- The theorems on core/qoi/timeout_manager.py at three rounds, of which two have timed out.
use ai_inference_chain.Prelude.{ℕ, ◌≡◌, refl, [], ◌∷◌, arith}
use ai_inference_chain.Prelude.Dict.{IsDistinct, keys}
use ai_inference_chain.Blockchain.Constants.{Text}
use ai_inference_chain.Qoi.Timeouts.{
  ActiveRound, Rounds, timed_out, key_error, check_timeouts, no_callback, end_round,
}
use ai_inference_chain.Qoi.Timeouts.Expired.{
  check_timeouts-expired, check_timeouts-ending, restart, ending,
}

abbrev tracked : Text → ℕ → ActiveRound
tracked k started = record { round_id = k; view = 4; started_at = started; timeout = 30000 }

abbrev three : Rounds
three = (1, tracked 1 0) ∷ (2, tracked 2 20000) ∷ (3, tracked 3 5000) ∷ []

three-IsDistinct : IsDistinct (keys three)
three-IsDistinct = (
  (λ e. ground (arith, e), (λ e. ground (arith, e), tt)),
  ((λ e. ground (arith, e), tt), (tt, tt)),
)

abbrev at_40 : Text → ℕ
at_40 k = 40000

check_timeouts-expired_example :
    (check_timeouts at_40 no_callback three
      ≡ (timed_out ((1, 4) ∷ (3, 4) ∷ []), (2, tracked 2 20000) ∷ []))
    × (check_timeouts at_40 (restart 30000 40001) three
        ≡ (timed_out ((1, 4) ∷ (3, 4) ∷ []), (2, tracked 2 20000) ∷ []))
check_timeouts-expired_example = check_timeouts-expired at_40 30000 40001 three three-IsDistinct

check_timeouts-ending_example :
    check_timeouts at_40 ending three ≡ (key_error, (2, tracked 2 20000) ∷ (3, tracked 3 5000) ∷ [])
unfolding end_round
check_timeouts-ending_example =
    check_timeouts-ending at_40 three three-IsDistinct 1 (tracked 1 0) ((3, tracked 3 5000) ∷ [])
      refl
