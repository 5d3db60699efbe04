-- ===== src/Blockchain/Chain/Funds.antt =====
-- What the balance checks of `_validate_tx` in core/blockchain/chain.py guarantee, and what not.
use ai_inference_chain.Prelude.{
  ℕ, ◌+◌, ◌≡◌, ◌≢◌, refl, ap, ◌∙◌, true, ◌&&◌, inl, inr, List, [], ◌∷◌, ◌++◌, arith, Bool-cases,
  if◌then◌else◌, ◌==◌, ok, >>-eq-ok,
}
use ai_inference_chain.Prelude.Int.{pos, ◌+ℤ◌, ◌-ℤ◌, ◌≤ℤ◌, int_laws, ltb_ℤ, parts_of_eq}
use ai_inference_chain.Prelude.Dict.{Dict, lookup-insert}
use ai_inference_chain.Blockchain.Constants.{Text, Amount}
use ai_inference_chain.Blockchain.Transaction.{
  Transaction, Payload, is_simple, is_simple_family, family_of, type_of,
}
use ai_inference_chain.Blockchain.Block.{Hashes, compute_merkle_root, tx_ids}
use ai_inference_chain.Blockchain.Chain.State.{ChainState, balance_of, nonce_of}
use ai_inference_chain.Blockchain.Chain.Apply.{
  charge, refund, charge_lem, credit, debit, set_stake, set_nonce, pay_fee, remember_pubkey,
  apply_payload, apply_tx, apply_txs, apply_transfer, apply_stake, apply_unstake, apply_register,
  apply_deploy,
}
use ai_inference_chain.Blockchain.Chain.Validate.{
  Signing, check_funds, check_signature, validate_tx, validate_txs,
}

balance_of-credit :
    (a : Text) (x : Amount) (s : ChainState) (b : Text)
    → balance_of (credit a x s) b ≡ (if b == a then balance_of s a +ℤ x else balance_of s b)
unfolding credit
balance_of-credit a x s b = ground (arith, lookup-insert b a (balance_of s a +ℤ x) s.balances)

balance_of-debit :
    (a : Text) (x : Amount) (s : ChainState) (b : Text)
    → balance_of (debit a x s) b ≡ (if b == a then balance_of s a -ℤ x else balance_of s b)
unfolding debit
balance_of-debit a x s b = ground (arith, lookup-insert b a (balance_of s a -ℤ x) s.balances)

balances-remember_pubkey :
    (tx : Transaction) (s : ChainState) → (remember_pubkey tx s).balances ≡ s.balances
unfolding remember_pubkey
balances-remember_pubkey tx s = ground arith

-- The proposer's share never lowers a balance.
balance_of-pay_fee :
    (tx : Transaction) (p : Text) (s : ChainState) (a : Text)
    → balance_of s a ≤ℤ balance_of (pay_fee tx p s) a
unfolding pay_fee
balance_of-pay_fee tx p s a = elim (Bool-cases (is_simple tx && ltb_ℤ (pos 0) tx.fee)) [
  | inl e ↦ rw e (grind (int_laws, balance_of-credit p tx.fee s a))
  | inr e ↦ rw e (omega arith)
]

-- The payloads whose cost `_validate_tx` checks in full, and the amounts they move.
abbrev pub IsChecked : Payload → Type 0
IsChecked (Payload.token_transfer a) = pos 0 ≤ℤ a
IsChecked (Payload.stake a) = pos 0 ≤ℤ a
IsChecked (Payload.unstake a) = pos 0 ≤ℤ a
IsChecked (Payload.contract_deploy p) = Unit {0}
IsChecked (Payload.node_register p) = Unit {0}
IsChecked _ = ⊥

covered :
    (h : Hashes) (tx : Transaction) (p : Payload) (n : ℕ) (s t : ChainState)
    → IsChecked p
    → check_funds tx p s ≡ ok tt
    → balance_of s tx.sender ≤ℤ balance_of t tx.sender
    → pos 0 ≤ℤ balance_of (apply_payload h tx p n t) tx.sender
unfolding check_funds apply_payload apply_transfer apply_stake apply_unstake apply_deploy
    apply_register set_nonce set_stake debit credit charge refund remember_pubkey
covered h tx (Payload.token_transfer a) n s t k e le = grind (int_laws, lookup-insert)
covered h tx (Payload.stake a) n s t k e le = grind (int_laws, lookup-insert)
covered h tx (Payload.unstake a) n s t k e le = grind (int_laws, lookup-insert)
covered h tx (Payload.contract_deploy p) n s t k e le = grind (int_laws, lookup-insert)
covered h tx (Payload.node_register p) n s t k e le = grind (int_laws, lookup-insert)
covered h tx _ n s t k e le = absurd k

-- On exact amounts, without the roundings of floats, a transaction that passes `_validate_tx` by
-- itself does not overdraw its sender, whoever the
-- proposer and the recipient are. It covers transfers, staking and unstaking of an amount of zero
-- or more, contract deployments and legacy registrations; a contract call's value and the fees of
-- the other registrations are not checked by the code.
validated_tx-covered :
    (h : Hashes) (sg : Signing) (n : ℕ) (p : Text) (intra : Dict ℕ) (tx : Transaction)
    (s : ChainState)
    → IsChecked tx.payload
    → validate_tx sg intra tx s ≡ ok tt
    → pos 0 ≤ℤ balance_of (apply_tx h n p tx s) tx.sender
unfolding validate_tx apply_tx
validated_tx-covered h sg n p intra tx s k e =
    covered h tx tx.payload n s (pay_fee tx p s) k (>>-eq-ok _ _ (>>-eq-ok _ _ e).1).1
      (balance_of-pay_fee tx p s tx.sender)

-- A transfer by `a` of `x` tokens that goes to neither `a` nor the proposer.
abbrev pub IsTransfer : Text → Amount → Text → Transaction → Type 0
IsTransfer a x proposer tx =
    (tx.sender ≡ a) × (tx.payload ≡ Payload.token_transfer x) × (tx.recipient ≢ a) × (proposer ≢ a)

apply_transfer-balance :
    (p a : Text) (x : Amount) (tx : Transaction) (s : ChainState)
    → tx.sender ≡ a
    → tx.recipient ≢ a
    → p ≢ a
    → balance_of (apply_transfer tx x (pay_fee tx p s)) a ≡ balance_of s a -ℤ (x +ℤ tx.fee)
unfolding apply_transfer set_nonce remember_pubkey credit debit pay_fee
apply_transfer-balance p a x tx s e r q = rw charge_lem (grind (arith, lookup-insert))

balance_of-transfer :
    (h : Hashes) (n : ℕ) (p : Text) (a : Text) (x : Amount) (tx : Transaction) (s : ChainState)
    → IsTransfer a x p tx
    → balance_of (apply_tx h n p tx s) a ≡ balance_of s a -ℤ (x +ℤ tx.fee)
unfolding apply_tx apply_payload
balance_of-transfer h n p a x tx s t =
    ap (λ q. balance_of (apply_payload h tx q n (pay_fee tx p s)) a) t.1
    ∙ apply_transfer-balance p a x tx s t.0 t.2 t.3

check_funds-transfer :
    (tx : Transaction) (q : Payload) (x : Amount) (s : ChainState)
    → q ≡ Payload.token_transfer x
    → x +ℤ tx.fee ≤ℤ balance_of s tx.sender
    → check_funds tx q s ≡ ok tt
unfolding check_funds
check_funds-transfer tx q x s e le = rw e (ground arith)

-- The balance check looks at the state before the block only, so two transfers of one sender, each
-- covered by its balance, are accepted together in one block, and leave the balance at what it was
-- less both amounts and fees: below zero if it did not cover both. Conditions: both signatures
-- pass, the nonces are the next two, neither recipient nor the proposer is the sender.
validate_txs-overdraft :
    (h : Hashes) (sg : Signing) (n : ℕ) (p a : Text) (x y : Amount) (tx ty : Transaction)
    (s : ChainState)
    → IsTransfer a x p tx
    → IsTransfer a y p ty
    → check_signature sg tx s ≡ ok tt
    → check_signature sg ty s ≡ ok tt
    → tx.nonce ≡ nonce_of s a + 1
    → ty.nonce ≡ nonce_of s a + 2
    → x +ℤ tx.fee ≤ℤ balance_of s a
    → y +ℤ ty.fee ≤ℤ balance_of s a
    → ¬ (x +ℤ tx.fee +ℤ (y +ℤ ty.fee) ≤ℤ balance_of s a)
    → (validate_txs sg (tx ∷ ty ∷ []) [] s ≡ ok tt)
      × ¬ (pos 0 ≤ℤ balance_of (apply_txs h n p (tx ∷ ty ∷ []) s) a)
unfolding validate_txs validate_tx apply_txs
validate_txs-overdraft h sg n p a x y tx ty s t u st su nt nu ct cu over =
    let funds_x = check_funds-transfer tx tx.payload x s t.1 in
    let funds_y = check_funds-transfer ty ty.payload y s u.1 in
    let s' : ChainState = apply_tx h n p tx s in
    (
      ground (arith, t.0, u.0, st, su, funds_x, funds_y),
      λ solvent. over (
          omega (
            int_laws,
            parts_of_eq (balance_of-transfer h n p a x tx s t),
            parts_of_eq (balance_of-transfer h n p a y ty s' u),
          )),
    )

tx_ids-swap :
    (tx : Transaction) (q : Payload) (before after : List Transaction)
    → tx_ids (before ++ record tx { payload = q } ∷ after) ≡ tx_ids (before ++ tx ∷ after)
tx_ids-swap tx q [] after = refl
tx_ids-swap tx q (b ∷ before) after = ap (◌∷◌ b.tx_id) (tx_ids-swap tx q before after)

-- What a block commits to of a transaction is its id, and the id is not recomputed: a simple
-- transaction whose payload was exchanged for another simple one, its id and signature kept, passes
-- the same signature check, and a block that holds it has the same Merkle root.
tampered_payload :
    (h : Hashes) (sg : Signing) (tx : Transaction) (q : Payload) (s : ChainState)
    (before after : List Transaction)
    → is_simple tx ≡ true
    → is_simple_family (family_of (type_of q)) ≡ true
    → (check_signature sg (record tx { payload = q }) s ≡ check_signature sg tx s)
      × (compute_merkle_root h (before ++ record tx { payload = q } ∷ after)
          ≡ compute_merkle_root h (before ++ tx ∷ after))
unfolding check_signature compute_merkle_root
tampered_payload h sg tx q s before after e f =
    (ground (arith, e, f), rw (tx_ids-swap tx q before after))
