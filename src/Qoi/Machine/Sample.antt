-- ===== src/Qoi/Machine/Sample.antt =====
-- A round of core/qoi/state_machine.py on which the tests run.
use ai_inference_chain.Prelude.{ℕ, refl, List, [], ◌∷◌, All}
use ai_inference_chain.Blockchain.Constants.{Text, no_text}
use ai_inference_chain.Qoi.Quality.Fixed.{fixed}
use ai_inference_chain.Qoi.Messages.{Header, PrepareMsg, CommitMsg, prepare, commit}
use ai_inference_chain.Qoi.Machine.Rounds.{argmax}
use ai_inference_chain.Qoi.Machine.Calls.{Call, starts, hears, ticks}
use ai_inference_chain.Qoi.Machine.Invariant.{HasArgmax}

abbrev pub header_from : Text → Header
header_from n = record { view = 0; seq = 1; sender_id = n; timestamp = 0; signature = no_text }

abbrev pub vote_of : Text → ℕ → PrepareMsg fixed
vote_of n c = record {
  header = header_from n;
  request_id = 5;
  probabilities = 900 ∷ 100 ∷ [];
  predicted_class = c;
}

abbrev pub commit_of : Text → ℕ → CommitMsg
commit_of n c = record { header = header_from n; request_id = 5; consensus_class = c }

-- The primary 11 starts a round, hears three PREPAREs for its class, then two COMMITs.
abbrev pub round_calls : List (Call fixed)
round_calls =
    starts 0 5 6 1 (900 ∷ 100 ∷ [])
    ∷ hears 1 (prepare (vote_of 12 0))
    ∷ hears 2 (prepare (vote_of 13 0))
    ∷ hears 3 (prepare (vote_of 14 0))
    ∷ hears 4 (commit (commit_of 12 0))
    ∷ hears 5 (commit (commit_of 13 0))
    ∷ ticks 6
    ∷ []

pub round_calls-HasArgmax : All (HasArgmax fixed) round_calls
unfolding argmax
round_calls-HasArgmax = ((0, refl), (tt, (tt, (tt, (tt, (tt, (tt, tt)))))))
