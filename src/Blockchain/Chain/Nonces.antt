-- ===== src/Blockchain/Chain/Nonces.antt =====
-- Nonces under `_apply_tx` and `_validate_block` of core/blockchain/chain.py: no replay.
use ai_inference_chain.Prelude.{
  ℕ, ◌+◌, ◌≤◌, ◌≡◌, refl, true, false, ◌&&◌, ◌∙◌, List, [], ◌∷◌, arith, if◌then◌else◌, ◌==◌, All,
  ok, >>-eq-ok,
}
use ai_inference_chain.Prelude.Dict.{Dict, insert, get_or, lookup-insert}
use ai_inference_chain.Blockchain.Constants.{Text}
use ai_inference_chain.Blockchain.Transaction.{
  Transaction, Payload, SlashPayload, ModelVerifyPayload, NodeAdmittedPayload, is_simple,
  is_simple_family, family_of, type_of,
}
use ai_inference_chain.Blockchain.Block.{Hashes}
use ai_inference_chain.Blockchain.Chain.State.{ChainState, nonce_of}
use ai_inference_chain.Blockchain.Chain.Apply.{
  charge, refund, credit, debit, set_stake, set_nonce, pay_fee, remember_pubkey, deactivate,
  apply_payload, apply_tx, apply_txs, apply_transfer, apply_stake, apply_unstake, apply_register,
  apply_register_dnn, apply_register_pos, apply_response, apply_deploy, apply_call, apply_slash,
  apply_verify, apply_admitted, apply_rejected,
}
use ai_inference_chain.Blockchain.Chain.Validate.{Signing, validate_tx, validate_txs, current_nonce}

nonce_of-set_nonce :
    (tx : Transaction) (a : Text) (s : ChainState)
    → nonce_of (set_nonce tx s) a ≡ (if a == tx.sender then tx.nonce else nonce_of s a)
unfolding set_nonce
nonce_of-set_nonce tx a s = ground (arith, lookup-insert a tx.sender tx.nonce s.nonces)

nonces-pay_fee : (tx : Transaction) (p : Text) (s : ChainState) → (pay_fee tx p s).nonces ≡ s.nonces
unfolding pay_fee credit
nonces-pay_fee tx p s = ground arith

nonces-remember_pubkey :
    (tx : Transaction) (s : ChainState) → (remember_pubkey tx s).nonces ≡ s.nonces
unfolding remember_pubkey
nonces-remember_pubkey tx s = ground arith

nonces-deactivate : (a : Text) (s : ChainState) → (deactivate a s).nonces ≡ s.nonces
unfolding deactivate
nonces-deactivate a s = ground arith

nonces-apply_slash :
    (tx : Transaction) (p : SlashPayload) (s : ChainState) → (apply_slash tx p s).nonces ≡ s.nonces
unfolding apply_slash set_stake
nonces-apply_slash tx p s = grind (arith, nonces-deactivate)

nonces-apply_verify :
    (tx : Transaction) (p : ModelVerifyPayload) (s : ChainState)
    → (apply_verify tx p s).nonces ≡ s.nonces
unfolding apply_verify
nonces-apply_verify tx p s = ground arith

nonces-apply_admitted :
    (p : NodeAdmittedPayload) (n : ℕ) (s : ChainState) → (apply_admitted p n s).nonces ≡ s.nonces
unfolding apply_admitted
nonces-apply_admitted p n s = ground arith

-- A simple payload writes its transaction's nonce for the sender, any other payload writes none.
nonces-apply_payload :
    (h : Hashes) (tx : Transaction) (p : Payload) (n : ℕ) (s : ChainState)
    → (apply_payload h tx p n s).nonces ≡ (
        if is_simple_family (family_of (type_of p))
        then insert tx.sender tx.nonce s.nonces
        else s.nonces)
unfolding apply_rejected apply_payload set_nonce credit debit charge refund set_stake apply_transfer
    apply_stake apply_unstake apply_register apply_register_dnn apply_register_pos apply_response
    apply_deploy apply_call
nonces-apply_payload h tx (Payload.token_transfer a) n s = nonces-remember_pubkey tx _
nonces-apply_payload h tx (Payload.stake a) n s = nonces-remember_pubkey tx _
nonces-apply_payload h tx (Payload.unstake a) n s = nonces-remember_pubkey tx _
nonces-apply_payload h tx (Payload.slash p) n s = nonces-apply_slash tx p s
nonces-apply_payload h tx (Payload.model_verify p) n s = nonces-apply_verify tx p s
nonces-apply_payload h tx (Payload.node_admitted p) n s = nonces-apply_admitted p n s
nonces-apply_payload h tx (Payload.node_rejected p) n s = nonces-deactivate p.node_id s
nonces-apply_payload h tx _ n s = refl

pub nonce_of-apply_tx :
    (h : Hashes) (n : ℕ) (p : Text) (tx : Transaction) (s : ChainState) (a : Text)
    → nonce_of (apply_tx h n p tx s) a
      ≡ (if is_simple tx && (a == tx.sender) then tx.nonce else nonce_of s a)
unfolding apply_tx
nonce_of-apply_tx h n p tx s a =
    rw (nonces-apply_payload h tx tx.payload n (pay_fee tx p s), nonces-pay_fee tx p s)
      (ground (arith, lookup-insert a tx.sender tx.nonce s.nonces))

-- `simple_txs` and `system_txs` hold what their names say: a condition that the code leaves to
-- whoever builds the block.
abbrev pub IsSimple : Transaction → Type 0
IsSimple tx = is_simple tx ≡ true

abbrev pub NotSimple : Transaction → Type 0
NotSimple tx = is_simple tx ≡ false

pub nonce_of-apply_txs_system :
    (h : Hashes) (n : ℕ) (p : Text) (txs : List Transaction) (s : ChainState) (a : Text)
    → All NotSimple txs
    → nonce_of (apply_txs h n p txs s) a ≡ nonce_of s a
unfolding apply_txs
nonce_of-apply_txs_system h n p [] s a m = refl
nonce_of-apply_txs_system h n p (tx ∷ txs) s a m =
    nonce_of-apply_txs_system h n p txs (apply_tx h n p tx s) a m.1
    ∙ ground (arith, nonce_of-apply_tx h n p tx s a, m.0)

-- An accepted transaction has the nonce after its sender's current one.
pub validate_tx-nonce :
    (sg : Signing) (intra : Dict ℕ) (tx : Transaction) (s : ChainState)
    → validate_tx sg intra tx s ≡ ok tt
    → tx.nonce ≡ current_nonce tx intra s + 1
unfolding validate_tx
validate_tx-nonce sg intra tx s e = ground arith

-- The state that the application has reached agrees with the validation's view of the nonces.
abbrev Tracks : Dict ℕ → ChainState → ChainState → Type 0
Tracks intra s t = (a : Text) → nonce_of t a ≡ get_or a intra (nonce_of s a)

module _ (h : Hashes) (sg : Signing) (n : ℕ) (p : Text) (s : ChainState) where
  Tracks-step :
      (tx : Transaction) (intra : Dict ℕ) (t : ChainState)
      → is_simple tx ≡ true
      → Tracks intra s t
      → Tracks (insert tx.sender tx.nonce intra) s (apply_tx h n p tx t)
  Tracks-step tx intra t simple tr a =
      ground (arith, nonce_of-apply_tx h n p tx t a, lookup-insert a tx.sender tx.nonce intra, tr a)

  -- Nonces only grow while a validated list is applied.
  nonce_of-grows :
      (txs : List Transaction) (intra : Dict ℕ) (t : ChainState) (a : Text)
      → validate_txs sg txs intra s ≡ ok tt
      → All IsSimple txs
      → Tracks intra s t
      → nonce_of t a ≤ nonce_of (apply_txs h n p txs t) a
  unfolding apply_txs validate_txs
  nonce_of-grows [] intra t a e m tr = omega arith
  nonce_of-grows (tx ∷ txs) intra t a e m tr =
      let (first, rest) = >>-eq-ok (validate_tx sg intra tx s) _ e in
      let ih =
        nonce_of-grows txs (insert tx.sender tx.nonce intra) (apply_tx h n p tx t) a rest m.1
          (Tracks-step tx intra t m.0 tr) in
      ground
        (arith, nonce_of-apply_tx h n p tx t a, validate_tx-nonce sg intra tx s first, tr a, ih)

  -- Once a validated list has been applied, each sender's nonce is at least that of each of its
  -- transactions in the list.
  pub applied_nonces :
      (txs : List Transaction) (intra : Dict ℕ) (t : ChainState)
      → validate_txs sg txs intra s ≡ ok tt
      → All IsSimple txs
      → Tracks intra s t
      → All (λ tx. tx.nonce ≤ nonce_of (apply_txs h n p txs t) tx.sender) txs
  unfolding apply_txs validate_txs
  applied_nonces [] intra t e m tr = tt
  applied_nonces (tx ∷ txs) intra t e m tr =
      let (first, rest) = >>-eq-ok (validate_tx sg intra tx s) _ e in
      let intra' : Dict ℕ = insert tx.sender tx.nonce intra in
      let tr' = Tracks-step tx intra t m.0 tr in
      let grown = nonce_of-grows txs intra' (apply_tx h n p tx t) tx.sender rest m.1 tr' in
      (
        ground (arith, nonce_of-apply_tx h n p tx t tx.sender, m.0, grown),
        applied_nonces txs intra' (apply_tx h n p tx t) rest m.1 tr',
      )
