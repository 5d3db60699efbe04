-- ===== src/Blockchain/Codec/Blocks.antt =====
-- `to_dict` and `from_dict` of core/blockchain/block.py.
use ai_inference_chain.Prelude.{ℕ, Option, none, some, List, [], ◌∷◌, map, Result, ok, err, ◌>>=◌}
use ai_inference_chain.Prelude.Dict.{Dict, lookup}
use ai_inference_chain.Blockchain.Constants.{Text}
use ai_inference_chain.Blockchain.Transaction.{Transaction}
use ai_inference_chain.Blockchain.Block.{
  Block, BlockHeader, BlockType, ConsensusProof, Hashes, validate_structure,
}
use ai_inference_chain.Blockchain.Codec.Keys.{
  block_hash_key, prev_hash_key, height_key, timestamp_key, proposer_id_key, merkle_root_key,
  block_type_key, view_key, consensus_type_key, signatures_key, header_key, inference_tx_key,
  simple_txs_key, system_txs_key, consensus_proof_key,
}
use ai_inference_chain.Blockchain.Codec.Json.{
  Json, CodecError, unknown_member, ill_typed, bad_structure, at, as_text, as_nat, as_pairs,
}
use ai_inference_chain.Blockchain.Codec.Transactions.{TxValue, to_dict, from_dict}

-- `block_type.value`: "qoi" and "pos"
abbrev pub block_type_value : BlockType → Text
block_type_value BlockType.qoi = 130
block_type_value BlockType.pos = 131

-- `BlockType(value)`
abbrev pub block_type_of_value : Text → Result CodecError BlockType
block_type_of_value v = elim (lookup v ((130, BlockType.qoi) ∷ (131, BlockType.pos) ∷ [])) [
  | none ↦ err unknown_member
  | some t ↦ ok t
]

unfoldable pub proof_to_dict : ConsensusProof → Dict Json
proof_to_dict p =
    (consensus_type_key, Json.text (block_type_value p.consensus_type))
    ∷ (view_key, Json.nat p.view)
    ∷ (signatures_key, Json.pairs p.signatures)
    ∷ []

unfoldable pub proof_from_dict : Dict Json → Result CodecError ConsensusProof
proof_from_dict d = do
  t ← at consensus_type_key d >>= as_text >>= block_type_of_value
  view ← at view_key d >>= as_nat
  signatures ← at signatures_key d >>= as_pairs
  ok (record { consensus_type = t; view = view; signatures = signatures })

unfoldable pub header_to_dict : Hashes → BlockHeader → Dict Json
header_to_dict h b =
    (block_hash_key, Json.text (h.header_hash b))
    ∷ (prev_hash_key, Json.text b.prev_hash)
    ∷ (height_key, Json.nat b.height)
    ∷ (timestamp_key, Json.nat b.timestamp)
    ∷ (proposer_id_key, Json.text b.proposer_id)
    ∷ (merkle_root_key, Json.text b.merkle_root)
    ∷ (block_type_key, Json.text (block_type_value b.block_type))
    ∷ (view_key, Json.nat b.view)
    ∷ []

-- `BlockHeader.from_dict`. The dict's hash is not read: the header's is computed again.
unfoldable pub header_from_dict : Dict Json → Result CodecError BlockHeader
header_from_dict d = do
  prev ← at prev_hash_key d >>= as_text
  n ← at height_key d >>= as_nat
  time ← at timestamp_key d >>= as_nat
  proposer ← at proposer_id_key d >>= as_text
  root ← at merkle_root_key d >>= as_text
  t ← at block_type_key d >>= as_text >>= block_type_of_value
  view ← at view_key d >>= as_nat
  ok (record {
    prev_hash = prev;
    height = n;
    timestamp = time;
    proposer_id = proposer;
    merkle_root = root;
    block_type = t;
    view = view;
  })

-- A value of a block's dict: that of its header or its proof, that of its inference transaction or
-- None, or those of a list of transactions.
pub data BlockValue : Type 0 where
  part : Dict Json → BlockValue
  maybe_tx : Option (Dict TxValue) → BlockValue
  txs : List (Dict TxValue) → BlockValue

abbrev as_part : BlockValue → Result CodecError (Dict Json)
as_part (part d) = ok d
as_part _ = err ill_typed

unfoldable pub block_to_dict : Hashes → Block → Dict BlockValue
unfolding header_to_dict proof_to_dict
block_to_dict h b =
    (header_key, part (header_to_dict h b.header))
    ∷ (
      inference_tx_key,
      maybe_tx (elim b.inference_tx [ none ↦ none | some tx ↦ some (to_dict tx) ]),
    )
    ∷ (simple_txs_key, txs (map to_dict b.simple_txs))
    ∷ (system_txs_key, txs (map to_dict b.system_txs))
    ∷ (consensus_proof_key, part (proof_to_dict b.consensus_proof))
    ∷ []

-- `[Transaction.from_dict(tx) for tx in …]`
unfoldable pub all_from_dict : List (Dict TxValue) → Result CodecError (List Transaction)
all_from_dict [] = ok []
all_from_dict (d ∷ ds) = do tx ← from_dict d; rest ← all_from_dict ds; ok (tx ∷ rest)

-- `d.get(k, [])`
unfoldable pub get_txs : ℕ → Dict BlockValue → Result CodecError (List Transaction)
get_txs k d = elim (lookup k d) [
  | none ↦ ok []
  | some (txs ds) ↦ all_from_dict ds
  | some _ ↦ err ill_typed
]

-- `Transaction.from_dict(d["inference_tx"]) if d.get("inference_tx") else None`; an empty dict is
-- no transaction.
unfoldable pub read_maybe : Option (Dict TxValue) → Result CodecError (Option Transaction)
read_maybe none = ok none
read_maybe (some []) = ok none
read_maybe (some (e ∷ d)) = from_dict (e ∷ d) >>= λ tx. ok (some tx)

unfoldable pub get_maybe_tx : ℕ → Dict BlockValue → Result CodecError (Option Transaction)
unfolding read_maybe
get_maybe_tx k d = elim (lookup k d) [
  | none ↦ ok none
  | some (maybe_tx o) ↦ read_maybe o
  | some _ ↦ err ill_typed
]

-- `Block(…)`, which checks its structure.
unfoldable pub make_block : Block → Result CodecError Block
make_block b = elim (validate_structure b) [ ok u ↦ ok b | err e ↦ err bad_structure ]

-- `Block.from_dict`
unfoldable pub block_from_dict : Dict BlockValue → Result CodecError Block
unfolding header_from_dict proof_from_dict get_txs get_maybe_tx make_block
block_from_dict d = do
  header ← at header_key d >>= as_part >>= header_from_dict
  tx ← get_maybe_tx inference_tx_key d
  simple ← get_txs simple_txs_key d
  system ← get_txs system_txs_key d
  proof ← at consensus_proof_key d >>= as_part >>= proof_from_dict
  make_block (record {
    header = header;
    simple_txs = simple;
    consensus_proof = proof;
    inference_tx = tx;
    system_txs = system;
  })
