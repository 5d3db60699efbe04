-- ===== src/Blockchain/Block.antt =====
-- core/blockchain/block.py, and the Merkle tree of core/blockchain/utils.py. SHA-256 is a
-- parameter: `empty_hash` is sha256(b""), `pair_hash` hashes the concatenation of two digests, and
-- `header_hash` is `sha256_json` of the header's dict.
pub mod Merkle
pub mod Proofs
pub mod Inclusion
use ai_inference_chain.Prelude.{
  ℕ, suc, ◌+◌, ◌*◌, Bool, true, false, Option, none, some, List, [], ◌∷◌, ◌++◌, map, Result, ok,
  err, is_some, leb, ◌==◌, if◌then◌else◌, length,
}
use ai_inference_chain.Blockchain.Constants.{Text}
use ai_inference_chain.Blockchain.Transaction.{Transaction, is_inference}

pub data BlockType : Type 0 where
  qoi pos : BlockType

pub record ConsensusProof : Type 0 where
  pub consensus_type : BlockType
  pub view : ℕ
  pub signatures : List (Text × Text)

-- 2f+1 signatures
abbrev pub is_valid : ConsensusProof → ℕ → Bool
is_valid p f = leb (2 * f + 1) (length p.signatures)

-- `node_id in {s[0] for s in self.signatures}`
abbrev pub has_signer : Text → List (Text × Text) → Bool
has_signer n [] = false
has_signer n ((m, s) ∷ ss) = if n == m then true else has_signer n ss

abbrev pub add_signature : ConsensusProof → Text → Text → ConsensusProof
add_signature p n s =
    if has_signer n p.signatures then p else record p { signatures = p.signatures ++ (n, s) ∷ [] }

pub record BlockHeader : Type 0 where
  pub prev_hash : Text
  pub height : ℕ
  pub timestamp : ℕ
  pub proposer_id : Text
  pub merkle_root : Text
  pub block_type : BlockType
  pub view : ℕ

-- The hash functions that the code calls.
pub record Hashes : Type 0 where
  pub empty_hash : Text
  pub pair_hash : Text → Text → Text
  pub header_hash : BlockHeader → Text
  -- `sha256_json({"deployer": …, "nonce": …})[:40]`
  pub contract_hash : Text → ℕ → Text

pub record Block : Type 0 where
  pub header : BlockHeader
  pub simple_txs : List Transaction
  pub consensus_proof : ConsensusProof
  pub inference_tx : Option Transaction
  pub system_txs : List Transaction

pub data BlockError : Type 0 where
  no_inference_tx not_inference_family unexpected_inference_tx : BlockError

-- `_validate_structure`, which runs when a block is made
unfoldable pub validate_structure : Block → Result BlockError (Unit {0})
validate_structure b = elim b.header.block_type [
  | qoi ↦ elim b.inference_tx [
    | none ↦ err no_inference_tx
    | some tx ↦ if is_inference tx then ok tt else err not_inference_family
  ]
  | pos ↦ if is_some b.inference_tx then err unexpected_inference_tx else ok tt
]

-- `all_transactions`: inference, simple, system
abbrev pub all_transactions : Block → List Transaction
all_transactions b = elim b.inference_tx [
  | none ↦ b.simple_txs ++ b.system_txs
  | some tx ↦ tx ∷ b.simple_txs ++ b.system_txs
]

-- One level of the tree: an odd level repeats its last element.
unfoldable pub merkle_level : Hashes → List Text → List Text
merkle_level h [] = []
merkle_level h (a ∷ []) = h.pair_hash a a ∷ []
merkle_level h (a ∷ b ∷ xs) = h.pair_hash a b ∷ merkle_level h xs

-- `_merkle_from_hashes`, with fuel for the `while` loop. The empty list, where the code indexes
-- out of range, does not reach it.
unfoldable pub merkle_from_hashes : Hashes → ℕ → List Text → Option Text
merkle_from_hashes h fuel [] = none
merkle_from_hashes h fuel (a ∷ []) = some a
merkle_from_hashes h ℕ.zero (a ∷ b ∷ xs) = none
merkle_from_hashes h (suc fuel) (a ∷ b ∷ xs) =
    merkle_from_hashes h fuel (merkle_level h (a ∷ b ∷ xs))

-- `compute_merkle_root_from_hashes`. A level at least halves, so the length is fuel enough.
unfoldable pub merkle_root_of : Hashes → List Text → Option Text
merkle_root_of h [] = some h.empty_hash
merkle_root_of h (a ∷ xs) = merkle_from_hashes h (length (a ∷ xs)) (a ∷ xs)

abbrev pub tx_ids : List Transaction → List Text
tx_ids = map (λ tx. tx.tx_id)

unfoldable pub compute_merkle_root : Hashes → List Transaction → Option Text
unfolding merkle_root_of
compute_merkle_root h txs = merkle_root_of h (tx_ids txs)

abbrev pub is_root : Text → Option Text → Bool
is_root root none = false
is_root root (some r) = root == r

unfoldable pub verify_merkle_root : Hashes → Block → Bool
verify_merkle_root h b = is_root b.header.merkle_root (compute_merkle_root h (all_transactions b))

unfoldable pub block_hash : Hashes → Block → Text
block_hash h b = h.header_hash b.header

-- A step of a Merkle proof: the sibling's hash, and whether its position is 'left'.
abbrev pub climb : Hashes → Text → Text × Bool → Text
climb h current (sibling, is_left) =
    if is_left then h.pair_hash sibling current else h.pair_hash current sibling

-- `current` after the loop over the proof
unfoldable pub climb_all : Hashes → Text → List (Text × Bool) → Text
climb_all h current [] = current
climb_all h current (s ∷ proof) = climb_all h (climb h current s) proof

unfoldable pub verify_merkle_proof : Hashes → Text → List (Text × Bool) → Text → Bool
unfolding climb_all
verify_merkle_proof h tx_id proof root = climb_all h tx_id proof == root
