-- ===== src/Blockchain/Tests.antt =====
-- The blockchain theorems at concrete inputs.
use ai_inference_chain.Prelude.{
  ℕ, ◌+◌, ◌*◌, ◌≡◌, ◌≢◌, refl, Bool, true, inl, inr, none, some, List, [], ◌∷◌, All, ok, ◌==◌,
}
use ai_inference_chain.Prelude.Int.{pos, ◌+ℤ◌}
use ai_inference_chain.Blockchain.Constants.{Text, no_text}
use ai_inference_chain.Blockchain.Transaction.{Transaction, Payload, Signature}
use ai_inference_chain.Blockchain.Block.Inclusion.{verify_merkle_proof_complete}
use ai_inference_chain.Blockchain.Block.{
  Block, BlockHeader, BlockType, ConsensusProof, Hashes, validate_structure, verify_merkle_root,
  merkle_level, merkle_from_hashes, merkle_root_of, compute_merkle_root, block_hash,
  verify_merkle_proof,
}
use ai_inference_chain.Blockchain.Chain.{Chain, new_chain, append, get_block}
use ai_inference_chain.Blockchain.Chain.State.{ChainState, empty_state}
use ai_inference_chain.Blockchain.Chain.Apply.{
  apply_tx, apply_txs, apply_block, credit, debit, pay_fee, set_nonce, remember_pubkey,
  apply_transfer, apply_payload,
}
use ai_inference_chain.Blockchain.Chain.Validate.{
  Signing, validate_tx, validate_txs, validate_block, check_signature, check_funds, signing_key,
}
use ai_inference_chain.Blockchain.Chain.Supply.{supply, supply-apply_tx, supply-apply_block}
use ai_inference_chain.Blockchain.Chain.Replay.{append-no_replay}
use ai_inference_chain.Blockchain.Chain.Links.{IsLedger, append_all, new_chain-IsLedger_after}

-- Hash functions on small numbers; a signature is valid if it is the text.
abbrev hashes : Hashes
hashes = record {
  empty_hash = 5;
  pair_hash = λ a b. a + 2 * b + 10;
  header_hash = λ hd. hd.height + 1000 * hd.merkle_root + 100;
  contract_hash = λ a n. a + n;
}

abbrev same_text : Signing
same_text key text sig = some (sig == text)

abbrev transfer : ℕ → ℕ → Transaction
transfer n amount = record {
  sender = 3;
  payload = Payload.token_transfer (pos amount);
  nonce = n;
  fee = pos 1;
  recipient = 4;
  timestamp = 0;
  signature = Signature.signed (20 + n);
  public_key = 30;
  tx_id = 20 + n;
}

abbrev reward_tx : ℕ → Transaction
reward_tx amount = record {
  sender = 9;
  payload = Payload.reward (record { amount = pos amount; reason = 1; request_id = 1 });
  nonce = 1;
  fee = pos 0;
  recipient = 3;
  timestamp = 0;
  signature = Signature.missing;
  public_key = no_text;
  tx_id = 50;
}

abbrev header_at : ℕ → Text → Text → BlockHeader
header_at n prev root = record {
  prev_hash = prev;
  height = n;
  timestamp = 0;
  proposer_id = 9;
  merkle_root = root;
  block_type = BlockType.pos;
  view = 0;
}

abbrev three_votes : ConsensusProof
three_votes = record {
  consensus_type = BlockType.pos;
  view = 0;
  signatures = (6, 1) ∷ (7, 1) ∷ (8, 1) ∷ [];
}

abbrev genesis_block : Block
genesis_block = record {
  header = header_at 0 no_text 0;
  simple_txs = [];
  consensus_proof = three_votes;
  inference_tx = none;
  system_txs = reward_tx 100 ∷ [];
}

-- Two transfers of ten tokens, of a sender that has a hundred.
abbrev transfers_block : Block
transfers_block = record {
  header = header_at 1 100 75;
  simple_txs = transfer 1 10 ∷ transfer 2 10 ∷ [];
  consensus_proof = three_votes;
  inference_tx = none;
  system_txs = [];
}

abbrev start : Chain
start = new_chain hashes 1 genesis_block

abbrev after_transfers : Chain
after_transfers = record {
  f = 1;
  blocks = genesis_block ∷ transfers_block ∷ [];
  state = apply_block hashes transfers_block (apply_block hashes genesis_block empty_state);
}

appended : append hashes same_text transfers_block start ≡ ok after_transfers
unfolding new_chain append validate_block validate_txs validate_tx check_signature signing_key
    check_funds block_hash verify_merkle_root merkle_level merkle_from_hashes merkle_root_of
    apply_block apply_txs apply_tx apply_payload apply_transfer credit debit pay_fee set_nonce
    remember_pubkey compute_merkle_root ◌+ℤ◌
appended = refl

appended_all : append_all hashes same_text (transfers_block ∷ []) start ≡ ok after_transfers
unfolding new_chain append validate_block validate_txs validate_tx check_signature signing_key
    check_funds block_hash verify_merkle_root merkle_level merkle_from_hashes merkle_root_of
    apply_block apply_txs apply_tx apply_payload apply_transfer credit debit pay_fee set_nonce
    remember_pubkey compute_merkle_root ◌+ℤ◌
appended_all = refl

sound_block : validate_structure transfers_block ≡ ok tt
unfolding validate_structure
sound_block = refl

append-no_replay_example :
    All (λ tx. validate_tx same_text [] tx after_transfers.state ≢ ok tt) transfers_block.simple_txs
append-no_replay_example =
    append-no_replay hashes same_text transfers_block start after_transfers appended sound_block
      (refl, (refl, tt)) tt

new_chain-IsLedger_after_example : IsLedger hashes after_transfers
new_chain-IsLedger_after_example =
    new_chain-IsLedger_after hashes same_text 1 genesis_block (transfers_block ∷ []) after_transfers
      refl appended_all

found : get_block 1 after_transfers ≡ some transfers_block
unfolding get_block
found = refl

supply-apply_tx_example :
    supply (apply_tx hashes 1 9 (reward_tx 100) empty_state)
    ≡ supply empty_state +ℤ pos 100 +ℤ pos 0
supply-apply_tx_example = supply-apply_tx hashes 1 9 (reward_tx 100) empty_state

-- A state in which the sender of the transfers has the given tokens.
abbrev rich : ℕ → ChainState
rich n = record empty_state { balances = (3, pos n) ∷ [] }

supply-apply_block_example :
    supply (apply_block hashes transfers_block (rich 100)) ≡ supply (rich 100)
supply-apply_block_example =
    supply-apply_block hashes transfers_block (rich 100)
      ((λ s. refl, refl), ((λ s. refl, refl), tt))

passed : validate_tx same_text [] (transfer 1 10) (rich 100) ≡ ok tt
unfolding validate_tx check_signature signing_key check_funds ◌+ℤ◌
passed = refl

signed_first : check_signature same_text (transfer 1 60) (rich 100) ≡ ok tt
unfolding check_signature signing_key
signed_first = refl

signed_second : check_signature same_text (transfer 2 60) (rich 100) ≡ ok tt
unfolding check_signature signing_key
signed_second = refl

verify_merkle_proof_complete_example :
    (proof : List (Text × Bool)) × (verify_merkle_proof hashes 22 proof 243 ≡ true)
unfolding compute_merkle_root merkle_root_of merkle_from_hashes merkle_level
verify_merkle_proof_complete_example =
    verify_merkle_proof_complete hashes (transfer 1 10 ∷ transfer 2 10 ∷ transfer 3 10 ∷ []) 22 243
      (inr (inl refl)) refl
