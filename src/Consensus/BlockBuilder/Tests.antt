-- ===== src/Consensus/BlockBuilder/Tests.antt =====
-- The theorems on built blocks at concrete inputs.
use ai_inference_chain.Prelude.{
  arith, ℕ, true, ◌+◌, ◌*◌, ◌≡◌, refl, none, some, List, [], ◌∷◌, ok, ◌==◌, keep,
}
use ai_inference_chain.Prelude.Int.{pos, ◌+ℤ◌}
use ai_inference_chain.Blockchain.Constants.{Text, empty_text}
use ai_inference_chain.Blockchain.Transaction.{Transaction, Payload, Signature}
use ai_inference_chain.Blockchain.Block.{Block, BlockType, Hashes, block_hash}
use ai_inference_chain.Blockchain.Chain.State.{empty_state}
use ai_inference_chain.Blockchain.Chain.Apply.{apply_txs}
use ai_inference_chain.Blockchain.Chain.Validate.{Signing, validate_block, validate_txs}
use ai_inference_chain.Qoi.Quality.Fixed.{fixed}
use ai_inference_chain.Qoi.Quality.{
  honest_nodes, NodeQoiResult, compute_round_rewards, reference, aggregate_probabilities, score_all,
  cosine_similarity, node_result, with_bonus, honest_deltas, shares,
}
use ai_inference_chain.Qoi.Machine as Qoi
use ai_inference_chain.Qoi.Machine.Calls as Calls
use ai_inference_chain.Qoi.Machine.Sample.{round_calls, round_calls-HasArgmax}
use ai_inference_chain.Qoi.Machine.Dispatch.{check_timeout, handle_message}
use ai_inference_chain.Qoi.Machine.Rounds.{start_round, argmax, handle_prepare}
use ai_inference_chain.Qoi.Machine.Voting.{compute_consensus_class}
use ai_inference_chain.Qoi.Machine.Commits.{handle_commit, finalise_round}
use ai_inference_chain.Qoi.SystemTxs.{Ids, build_system_txs, is_rewarded}
use ai_inference_chain.Qoi.SystemTxs.Roles.{free_tokens, total_reward, build_system_txs-mint}
use ai_inference_chain.Qoi.Pos.{
  PosOutcome, VoteMsg, new_machine, propose_block, handle_vote, finalise,
}
use ai_inference_chain.Qoi.Pos.Votes.{Call, proposes, hears, run, step}
use ai_inference_chain.Consensus.BlockBuilder.{build_pos_block, build_qoi_block}
use ai_inference_chain.Consensus.BlockBuilder.Accepted.{
  build_pos_block-accepted, build_qoi_block-accepted,
}

abbrev hashes : Hashes
hashes = record {
  empty_hash = 5;
  pair_hash = λ a b. a + 2 * b;
  header_hash = λ hd. hd.height + 100;
  contract_hash = λ a n. a + n;
}

abbrev same_text : Signing
same_text key text sig = some (sig == text)

abbrev tip_block : Block
tip_block = record {
  header = record {
    prev_hash = 100;
    height = 7;
    timestamp = 0;
    proposer_id = 11;
    merkle_root = 5;
    block_type = BlockType.pos;
    view = 0;
  };
  simple_txs = [];
  consensus_proof = record { consensus_type = BlockType.pos; view = 0; signatures = [] };
  inference_tx = none;
  system_txs = [];
}

abbrev candidate : Block
candidate = record tip_block { header = record tip_block.header { height = 8; prev_hash = 107 } }

abbrev vote_from : Text → VoteMsg
vote_from n = record {
  node_id = n;
  block_hash = 108;
  view = 0;
  signature = empty_text;
  timestamp = 0;
}

abbrev pos_calls : List Call
pos_calls = proposes 0 candidate ∷ hears (vote_from 12) ∷ hears (vote_from 13) ∷ []

abbrev pos_outcome : PosOutcome
pos_outcome = record {
  block = candidate;
  votes =
      record (vote_from 11) { timestamp = 0; signature = empty_text }
      ∷ vote_from 12
      ∷ vote_from 13
      ∷ [];
  proposer_id = 11;
}

pos_committed : (run hashes (new_machine 11 11 1) pos_calls).outcome ≡ some pos_outcome
unfolding run step propose_block handle_vote finalise block_hash new_machine
pos_committed = refl

abbrev result_of : Text → ℕ → ℕ → NodeQoiResult fixed
result_of n reward delta = record {
  node_id = n;
  is_honest = true;
  predicted_class = 0;
  probabilities = 900 ∷ 100 ∷ [];
  qoi_score = 1000;
  token_reward = reward;
  rep_delta = delta;
}

-- What the machine 11 decides in the sample round.
abbrev round_outcome : Qoi.ConsensusOutcome fixed
round_outcome = record {
  request_id = 5;
  consensus_class = 0;
  view = 0;
  seq = 1;
  primary_id = 11;
  round_result = record {
    request_id = 5;
    consensus_class = 0;
    aggregated_probs = 900 ∷ 100 ∷ [];
    primary_id = 11;
    node_results =
        result_of 11 4500 600
        ∷ result_of 12 2500 500
        ∷ result_of 13 2500 500
        ∷ result_of 14 2500 500
        ∷ [];
    total_pool = 10000;
  };
  commit_signatures = (11, 1) ∷ (12, 1) ∷ (13, 1) ∷ [];
  elected_quorum = [];
}

round_decided :
    (Calls.run fixed (Qoi.new_machine fixed 11 11 1) round_calls).outcome ≡ some round_outcome
unfolding Calls.run Calls.step Qoi.new_machine check_timeout handle_message start_round argmax
    handle_prepare compute_consensus_class handle_commit finalise_round compute_round_rewards
    reference aggregate_probabilities score_all cosine_similarity node_result with_bonus
    honest_deltas shares
round_decided = refl

abbrev request_tx : Transaction
request_tx = record {
  sender = 40;
  payload = Payload.inference_request (record { request_id = 5; image_hash = 6; model_hint = 0 });
  nonce = 1;
  fee = pos 0;
  recipient = 0;
  timestamp = 0;
  signature = Signature.missing;
  public_key = 0;
  tx_id = 41;
}

abbrev id_of : Ids
id_of tx = 1000 + tx.nonce

no_txs-valid : validate_txs same_text [] [] empty_state ≡ ok tt
unfolding validate_txs
no_txs-valid = refl

build_pos_block-accepted_example :
    (b : Block) × (build_pos_block hashes 50
        (block_hash hashes tip_block)
        (tip_block.header.height + 1)
        []
        pos_outcome
      ≡ some b)
    × (b.simple_txs ≡ [])
    × (validate_block hashes same_text 1 (some tip_block) b empty_state ≡ ok tt)
build_pos_block-accepted_example =
    build_pos_block-accepted hashes same_text 50 11 11 1 pos_calls pos_outcome tip_block []
      empty_state pos_committed no_txs-valid

build_qoi_block-accepted_example :
    (b : Block) × (build_qoi_block fixed pos hashes id_of
        (λ n. n)
        60
        (block_hash hashes tip_block)
        (tip_block.header.height + 1)
        11
        request_tx
        []
        round_outcome
        3
      ≡ some b)
    × (b.inference_tx ≡ some request_tx)
    × (b.simple_txs ≡ [])
    × (validate_block hashes same_text 1 (some tip_block) b empty_state ≡ ok tt)
build_qoi_block-accepted_example =
    build_qoi_block-accepted fixed pos hashes same_text id_of (λ n. n) 60 11 11 1 1 round_calls 11
      tip_block request_tx [] round_outcome 3 empty_state (omega arith) round_calls-HasArgmax
      round_decided refl no_txs-valid

build_system_txs-mint_example :
    free_tokens
      (apply_txs hashes 8 11 (build_system_txs fixed pos id_of (λ n. n) round_outcome) empty_state)
    ≡ free_tokens empty_state
      +ℤ total_reward fixed pos
          (keep (is_rewarded fixed pos) (honest_nodes fixed round_outcome.round_result))
build_system_txs-mint_example =
    build_system_txs-mint fixed pos hashes 8 11 id_of (λ n. n) round_outcome empty_state
