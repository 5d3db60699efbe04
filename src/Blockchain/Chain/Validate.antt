-- ===== src/Blockchain/Chain/Validate.antt =====
-- `_validate_block` and `_validate_tx` of core/blockchain/chain.py.
use ai_inference_chain.Prelude.{
  ℕ, ◌+◌, Bool, true, not, Option, none, some, List, [], ◌∷◌, Result, ok, err, ◌>>◌, raise_if, ◌==◌,
  if◌then◌else◌,
}
use ai_inference_chain.Prelude.Int.{◌+ℤ◌, ltb_ℤ}
use ai_inference_chain.Prelude.Dict.{Dict, lookup, insert, get_or}
use ai_inference_chain.Blockchain.Constants.{Text, is_truthy, no_text}
use ai_inference_chain.Blockchain.Transaction.{Transaction, Payload, signed, is_simple}
use ai_inference_chain.Blockchain.Block.{Block, Hashes, is_valid, block_hash, verify_merkle_root}
use ai_inference_chain.Blockchain.Chain.State.{ChainState, balance_of, stake_of, nonce_of}

pub data ChainError : Type 0 where
  no_tip bad_prev_hash bad_height few_signatures bad_merkle_root : ChainError
  bad_signature bad_nonce low_balance low_stake : ChainError

-- `core.node.identity.verify_signature public_key data signature`; `none` where it raises.
abbrev pub Signing : Type 0
Signing = Text → Text → Text → Option Bool

-- `_verify_sig`: an exception counts as a valid signature
abbrev pub verify_sig : Signing → Text → Text → Text → Bool
verify_sig sg key text sig = elim (sg key text sig) [ none ↦ true | some b ↦ b ]

-- The key against which a sender's signature is checked, if any is known.
unfoldable pub signing_key : Transaction → ChainState → Option Text
signing_key tx s = elim (lookup tx.sender s.nodes) [
  | some n ↦ some n.public_key
  | none ↦
      let key : Text =
        if is_truthy tx.public_key then tx.public_key else get_or tx.sender s.pubkeys no_text in
      if is_truthy key then some key else none
]

check_key : Signing → Transaction → Text → Option Text → Result ChainError (Unit {0})
check_key sg tx sig none = ok tt
check_key sg tx sig (some key) = raise_if (not (verify_sig sg key tx.tx_id sig)) bad_signature

unfoldable pub check_signature : Signing → Transaction → ChainState → Result ChainError (Unit {0})
unfolding check_key signing_key
check_signature sg tx s = elim tx.signature [
  | signed sig ↦ if is_simple tx then check_key sg tx sig (signing_key tx s) else ok tt
  | _ ↦ ok tt
]

-- The sender's nonce: that of its last transaction in this block, or of the state.
abbrev pub current_nonce : Transaction → Dict ℕ → ChainState → ℕ
current_nonce tx intra s = get_or tx.sender intra (nonce_of s tx.sender)

-- What a transaction needs of its sender's balance and stake, on exact amounts: the program compares
-- rounded sums of floats.
unfoldable pub check_funds : Transaction → Payload → ChainState → Result ChainError (Unit {0})
check_funds tx (Payload.token_transfer a) s =
    raise_if (ltb_ℤ (balance_of s tx.sender) (a +ℤ tx.fee)) low_balance
check_funds tx (Payload.stake a) s =
    raise_if (ltb_ℤ (balance_of s tx.sender) (a +ℤ tx.fee)) low_balance
check_funds tx (Payload.unstake a) s = do
  raise_if (ltb_ℤ (stake_of s tx.sender) a) low_stake
  raise_if (ltb_ℤ (balance_of s tx.sender) tx.fee) low_balance
check_funds tx (Payload.contract_deploy p) s =
    raise_if (ltb_ℤ (balance_of s tx.sender) tx.fee) low_balance
check_funds tx (Payload.contract_call p) s =
    raise_if (ltb_ℤ (balance_of s tx.sender) tx.fee) low_balance
check_funds tx (Payload.node_register p) s =
    raise_if (ltb_ℤ (balance_of s tx.sender) tx.fee) low_balance
check_funds tx _ s = ok tt

unfoldable pub validate_tx :
    Signing → Dict ℕ → Transaction → ChainState → Result ChainError (Unit {0})
validate_tx sg intra tx s = do
  check_signature sg tx s
  raise_if (not (tx.nonce == current_nonce tx intra s + 1)) bad_nonce
  check_funds tx tx.payload s

-- The loop over `block.simple_txs`, with the nonces seen so far.
unfoldable pub validate_txs :
    Signing → List Transaction → Dict ℕ → ChainState → Result ChainError (Unit {0})
validate_txs sg [] intra s = ok tt
validate_txs sg (tx ∷ txs) intra s =
    validate_tx sg intra tx s >> validate_txs sg txs (insert tx.sender tx.nonce intra) s

-- `validate_block h sg f tip b s`
unfoldable pub validate_block :
    Hashes → Signing → ℕ → Option Block → Block → ChainState → Result ChainError (Unit {0})
validate_block h sg f none b s = err no_tip
validate_block h sg f (some tip) b s = do
  raise_if (not (b.header.prev_hash == block_hash h tip)) bad_prev_hash
  raise_if (not (b.header.height == tip.header.height + 1)) bad_height
  raise_if (not (is_valid b.consensus_proof f)) few_signatures
  raise_if (not (verify_merkle_root h b)) bad_merkle_root
  validate_txs sg b.simple_txs [] s
