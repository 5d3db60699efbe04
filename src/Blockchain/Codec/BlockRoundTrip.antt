-- ===== src/Blockchain/Codec/BlockRoundTrip.antt =====
-- Round trips of the dicts of core/blockchain/block.py.
use ai_inference_chain.Prelude.{◌≡◌, refl, Option, none, some, List, [], ◌∷◌, map, ok, err}
use ai_inference_chain.Blockchain.Transaction.{Transaction}
use ai_inference_chain.Blockchain.Block.{
  Block, BlockHeader, BlockType, ConsensusProof, Hashes, validate_structure,
}
use ai_inference_chain.Blockchain.Codec.Json.{bad_structure}
use ai_inference_chain.Blockchain.Codec.Transactions.{to_dict}
use ai_inference_chain.Blockchain.Codec.RoundTrip.{from_dict-to_dict}
use ai_inference_chain.Blockchain.Codec.Blocks.{
  block_type_value, block_type_of_value, proof_to_dict, proof_from_dict, header_to_dict,
  header_from_dict, block_to_dict, block_from_dict, all_from_dict, read_maybe, make_block, get_txs,
  get_maybe_tx,
}

block_type_of_value-block_type_value :
    (t : BlockType) → block_type_of_value (block_type_value t) ≡ ok t
block_type_of_value-block_type_value BlockType.qoi = refl
block_type_of_value-block_type_value BlockType.pos = refl

proof_from_dict-to_dict : (p : ConsensusProof) → proof_from_dict (proof_to_dict p) ≡ ok p
unfolding proof_from_dict proof_to_dict
proof_from_dict-to_dict p = rw (block_type_of_value-block_type_value p.consensus_type) refl

header_from_dict-to_dict :
    (h : Hashes) (b : BlockHeader) → header_from_dict (header_to_dict h b) ≡ ok b
unfolding header_from_dict header_to_dict
header_from_dict-to_dict h b = rw (block_type_of_value-block_type_value b.block_type) refl

all_from_dict-to_dict : (ts : List Transaction) → all_from_dict (map to_dict ts) ≡ ok ts
unfolding all_from_dict
all_from_dict-to_dict [] = refl
all_from_dict-to_dict (t ∷ ts) = rw (from_dict-to_dict t, all_from_dict-to_dict ts) refl

read_maybe-to_dict :
    (o : Option Transaction)
    → read_maybe (elim o [ none ↦ none | some tx ↦ some (to_dict tx) ]) ≡ ok o
unfolding read_maybe to_dict
read_maybe-to_dict none = refl
read_maybe-to_dict (some tx) = rw (from_dict-to_dict tx) refl

-- `Block.from_dict` of what `to_dict` wrote is the block again if the block's structure is valid,
-- and raises if it is not; the hash in the dict is not read.
pub block_from_dict-to_dict :
    (h : Hashes) (b : Block)
    → block_from_dict (block_to_dict h b)
      ≡ elim (validate_structure b) [ ok u ↦ ok b | err e ↦ err bad_structure ]
unfolding block_from_dict block_to_dict make_block get_txs get_maybe_tx
block_from_dict-to_dict h b =
    rw
      (
        header_from_dict-to_dict h b.header,
        read_maybe-to_dict b.inference_tx,
        all_from_dict-to_dict b.simple_txs,
        all_from_dict-to_dict b.system_txs,
        proof_from_dict-to_dict b.consensus_proof,
      )
      refl
