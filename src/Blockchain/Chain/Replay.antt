-- ===== src/Blockchain/Chain/Replay.antt =====
-- What `append` of core/blockchain/chain.py guarantees about replayed transactions.
use ai_inference_chain.Prelude.{
  ℕ, ◌≡◌, ◌≢◌, refl, ap, inl, inr, none, some, List, [], ◌∷◌, ◌++◌, arith, Option-cases, All,
  All-map, ok,
}
use ai_inference_chain.Blockchain.Constants.{Text}
use ai_inference_chain.Blockchain.Transaction.{Transaction}
use ai_inference_chain.Blockchain.Block.{Block, Hashes, validate_structure}
use ai_inference_chain.Blockchain.Chain.{Chain, append}
use ai_inference_chain.Blockchain.Chain.State.{ChainState, nonce_of}
use ai_inference_chain.Blockchain.Chain.Apply.{apply_tx, apply_txs, apply_block}
use ai_inference_chain.Blockchain.Chain.Validate.{
  Signing, validate_tx, validate_txs, validate_block,
}
use ai_inference_chain.Blockchain.Chain.Nonces.{
  IsSimple, NotSimple, applied_nonces, validate_tx-nonce, nonce_of-apply_txs_system,
  nonce_of-apply_tx,
}

pub apply_txs-append :
    (h : Hashes) (n : ℕ) (p : Text) (xs ys : List Transaction) (s : ChainState)
    → apply_txs h n p (xs ++ ys) s ≡ apply_txs h n p ys (apply_txs h n p xs s)
unfolding apply_txs
apply_txs-append h n p [] ys s = refl
apply_txs-append h n p (x ∷ xs) ys s = apply_txs-append h n p xs ys (apply_tx h n p x s)

-- What a successful `append` has checked, and the chain that it returns.
pub append-ok :
    (h : Hashes) (sg : Signing) (b : Block) (c c' : Chain)
    → append h sg b c ≡ ok c'
    → (validate_txs sg b.simple_txs [] c.state ≡ ok tt)
      × (c' ≡ record c { blocks = c.blocks ++ b ∷ []; state = apply_block h b c.state })
unfolding append validate_block
append-ok h sg b c c' e = ground arith

-- The state before the simple transactions, which the inference request leaves alone.
before_simple : Hashes → Block → ChainState → ChainState
before_simple h b s = elim b.inference_tx [
  | none ↦ s
  | some tx ↦ apply_tx h b.header.height b.header.proposer_id tx s
]

apply_block-parts :
    (h : Hashes) (b : Block) (s : ChainState)
    → apply_block h b s
      ≡ apply_txs h b.header.height b.header.proposer_id b.system_txs
          (apply_txs h b.header.height b.header.proposer_id b.simple_txs (before_simple h b s))
unfolding apply_block before_simple apply_txs
apply_block-parts h b s = ground (
  arith,
  apply_txs-append h b.header.height b.header.proposer_id b.simple_txs b.system_txs
      (before_simple h b s),
)

nonce_of-before_simple :
    (h : Hashes) (b : Block) (s : ChainState) (a : Text)
    → validate_structure b ≡ ok tt
    → nonce_of (before_simple h b s) a ≡ nonce_of s a
unfolding validate_structure before_simple
nonce_of-before_simple h b s a v = elim (Option-cases b.inference_tx) [
  | inl e ↦ ground arith
  | inr (tx, e) ↦ ground (arith, nonce_of-apply_tx h b.header.height b.header.proposer_id tx s a)
]

-- After a block has been appended, none of its simple transactions passes
-- `_validate_tx` again. Conditions: the block passed `_validate_structure`, `simple_txs` holds
-- transactions of the simple family only and `system_txs` none.
pub append-no_replay :
    (h : Hashes) (sg : Signing) (b : Block) (c c' : Chain)
    → append h sg b c ≡ ok c'
    → validate_structure b ≡ ok tt
    → All IsSimple b.simple_txs
    → All NotSimple b.system_txs
    → All (λ tx. validate_tx sg [] tx c'.state ≢ ok tt) b.simple_txs
append-no_replay h sg b c c' e v simple system =
    let (valid, made) = append-ok h sg b c c' e in
    let n : ℕ = b.header.height in
    let p : Text = b.header.proposer_id in
    let s' : ChainState = before_simple h b c.state in
    All-map
      (λ tx le again. absurd (
        ground (
          arith,
          le,
          validate_tx-nonce sg [] tx c'.state again,
          ap (λ (x : Chain). x.state) made,
          apply_block-parts h b c.state,
          nonce_of-apply_txs_system h n p b.system_txs (apply_txs h n p b.simple_txs s') tx.sender
              system,
        )))
      b.simple_txs
      (applied_nonces h sg n p c.state b.simple_txs [] s' valid simple
        (λ a. nonce_of-before_simple h b c.state a v))
