-- ===== src/Consensus/Reliability/Tests.antt =====
-- The theorem on core/consensus/reliability.py at a round, a challenge and fixed-point numbers.
use ai_inference_chain.Prelude.{ℕ, ◌≡◌, Bool, true, false, some, List, [], ◌∷◌, arith}
use ai_inference_chain.Qoi.Quality.{NodeQoiResult, RoundResult}
use ai_inference_chain.Qoi.Quality.Fixed.{fixed}
use ai_inference_chain.Consensus.Reliability.{ChallengeRow, reliability_of, get_score}
use ai_inference_chain.Consensus.Reliability.Range.{
  IsOrdered, InRange, Update, round, challenge, updates, updates-InRange,
}

fixed-IsOrdered : IsOrdered fixed
fixed-IsOrdered = record {
  irrefl = λ a. ground arith;
  asym = λ a b h. ground (arith, h);
  trans = λ a b c h k. ground (arith, h, k);
  numerals = λ a b l. ground (arith, l);
}

abbrev result_of : ℕ → Bool → NodeQoiResult fixed
result_of k honest = record {
  node_id = k;
  is_honest = honest;
  predicted_class = 3;
  probabilities = [];
  qoi_score = 900;
  token_reward = 0;
  rep_delta = 0;
}

abbrev one_round : RoundResult fixed
one_round = record {
  request_id = 9;
  consensus_class = 3;
  aggregated_probs = [];
  primary_id = 11;
  node_results = result_of 11 true ∷ result_of 12 false ∷ [];
  total_pool = 10000;
}

abbrev row : ChallengeRow fixed
row = record { node_id = 12; is_honest = false; knowledge_score = some 800 }

abbrev both : List (Update fixed)
both = round 200 one_round ∷ challenge 450 true (row ∷ []) ∷ []

updates-InRange_example :
    InRange fixed (reliability_of fixed 12 (updates fixed [] both))
    × (get_score fixed 12 (updates fixed [] both)
        ≡ (reliability_of fixed 12 (updates fixed [] both)).score)
updates-InRange_example = updates-InRange fixed fixed-IsOrdered both 12
