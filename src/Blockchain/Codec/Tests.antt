-- ===== src/Blockchain/Codec/Tests.antt =====
-- The round trips at concrete inputs.
use ai_inference_chain.Prelude.{◌≡◌, none, [], ◌∷◌, ok, err}
use ai_inference_chain.Prelude.Int.{pos}
use ai_inference_chain.Blockchain.Constants.{no_text}
use ai_inference_chain.Blockchain.Transaction.{Transaction, Payload, Signature}
use ai_inference_chain.Blockchain.Block.{Block, BlockType, Hashes, validate_structure}
use ai_inference_chain.Blockchain.Codec.Json.{bad_structure}
use ai_inference_chain.Blockchain.Codec.Transactions.{to_dict, from_dict}
use ai_inference_chain.Blockchain.Codec.Blocks.{block_to_dict, block_from_dict}
use ai_inference_chain.Blockchain.Codec.RoundTrip.{from_dict-to_dict}
use ai_inference_chain.Blockchain.Codec.BlockRoundTrip.{block_from_dict-to_dict}

abbrev transfer : Transaction
transfer = record {
  sender = 3;
  payload = Payload.token_transfer (pos 5);
  nonce = 1;
  fee = pos 1;
  recipient = 4;
  timestamp = 0;
  signature = Signature.missing;
  public_key = no_text;
  tx_id = 30;
}

from_dict-to_dict_example : from_dict (to_dict transfer) ≡ ok transfer
from_dict-to_dict_example = from_dict-to_dict transfer

abbrev hashes : Hashes
hashes = record {
  empty_hash = 5;
  pair_hash = λ a b. a;
  header_hash = λ hd. hd.height;
  contract_hash = λ a n. n;
}

abbrev block : Block
block = record {
  header = record {
    prev_hash = 6;
    height = 1;
    timestamp = 0;
    proposer_id = 9;
    merkle_root = 30;
    block_type = BlockType.pos;
    view = 0;
  };
  simple_txs = transfer ∷ [];
  consensus_proof = record { consensus_type = BlockType.pos; view = 0; signatures = (6, 7) ∷ [] };
  inference_tx = none;
  system_txs = [];
}

block_from_dict-to_dict_example :
    block_from_dict (block_to_dict hashes block)
    ≡ elim (validate_structure block) [ ok u ↦ ok block | err e ↦ err bad_structure ]
block_from_dict-to_dict_example = block_from_dict-to_dict hashes block
