-- ===== src/Qoi/Pos/Tests.antt =====
-- The theorems on PoS votes at concrete inputs.
use ai_inference_chain.Prelude.{ℕ, ◌+◌, ◌*◌, ◌≡◌, refl, true, none, some, [], ◌∷◌, arith}
use ai_inference_chain.Prelude.Dict.{values, insert}
use ai_inference_chain.Blockchain.Constants.{Text, empty_text}
use ai_inference_chain.Blockchain.Block.{
  Block, BlockType, Hashes, verify_merkle_root, compute_merkle_root, merkle_root_of, block_hash,
}
use ai_inference_chain.Qoi.Pos.{
  VoteMsg, PosMachine, new_machine, handle_vote, handle_proposed_block, validate_proposed_block,
  own_vote,
}
use ai_inference_chain.Qoi.Pos.Votes.{
  proposes, hears, ticks, run, Certified, run-Certified, stale_votes-commit,
}

abbrev hashes : Hashes
hashes = record {
  empty_hash = 5;
  pair_hash = λ a b. a + 2 * b;
  header_hash = λ hd. hd.height + 100;
  contract_hash = λ a n. a + n;
}

-- A block without transactions, at the height.
abbrev empty_block : ℕ → Block
empty_block n = record {
  header = record {
    prev_hash = 100;
    height = n;
    timestamp = 0;
    proposer_id = 11;
    merkle_root = 5;
    block_type = BlockType.pos;
    view = 0;
  };
  simple_txs = [];
  consensus_proof = record { consensus_type = BlockType.pos; view = 0; signatures = [] };
  inference_tx = none;
  system_txs = [];
}

abbrev vote_from : Text → ℕ → VoteMsg
vote_from n height = record {
  node_id = n;
  block_hash = height + 100;
  view = 0;
  signature = empty_text;
  timestamp = 0;
}

run-Certified_example :
    Certified 1
      (run hashes (new_machine 11 11 1) (
        proposes 0 (empty_block 1)
        ∷ hears (vote_from 12 1)
        ∷ hears (vote_from 13 1)
        ∷ ticks 9
        ∷ [])).outcome
run-Certified_example =
    run-Certified hashes 11 11 1
      (proposes 0 (empty_block 1) ∷ hears (vote_from 12 1) ∷ hears (vote_from 13 1) ∷ ticks 9 ∷ [])

-- A replica with one vote for the block of height 1 on file.
abbrev replica : PosMachine
replica = record (new_machine 12 11 1) { votes = (13, vote_from 13 1) ∷ [] }

valid_second : validate_proposed_block hashes (empty_block 2) ≡ true
unfolding validate_proposed_block verify_merkle_root compute_merkle_root merkle_root_of
valid_second = refl

hash_second : (vote_from 14 2).block_hash ≡ block_hash hashes (empty_block 2)
unfolding block_hash
hash_second = refl

stale_votes-commit_example :
    let (done, m') =
      handle_vote hashes
        (vote_from 14 2)
        (handle_proposed_block hashes 3 (empty_block 2) replica).1 in
    (done ≡ true)
    × (m'.outcome
        ≡ some (record {
          block = empty_block 2;
          votes = values (
              insert 14
                (vote_from 14 2)
                (insert replica.node_id (own_vote hashes 3 (empty_block 2) replica) replica.votes));
          proposer_id = replica.proposer_id;
        }))
unfolding new_machine
stale_votes-commit_example =
    stale_votes-commit hashes 3 (empty_block 2) (vote_from 14 2) replica valid_second refl refl
      (λ e. omega arith) hash_second (omega arith)
