-- ===== src/Blockchain/Chain/Supply.antt =====
-- The token supply of core/blockchain/chain.py: balances and stakes together, under `_apply_tx`.
use ai_inference_chain.Prelude.{
  All, ℕ, ◌≡◌, refl, Bool, true, false, ◌&&◌, inl, inr, List, [], ◌∷◌, arith, Bool-cases,
  if◌then◌else◌,
}
use ai_inference_chain.Prelude.Int.{pos, ◌+ℤ◌, ◌-ℤ◌, int_laws, max_ℤ, parts_of_eq, ltb_ℤ}
use ai_inference_chain.Prelude.Dict.{sum_values, sum_values-insert}
use ai_inference_chain.Blockchain.Constants.{Text, Amount}
use ai_inference_chain.Blockchain.Transaction.{
  Transaction, Payload, is_simple, family_of, type_of, is_simple_family, SlashPayload,
  ContractCallPayload, NodeRegisterPayload, NodeRegisterDnnPayload, NodeRegisterPosPayload,
  ContractDeployPayload, ModelVerifyPayload, NodeAdmittedPayload, NodeRejectedPayload,
}
use ai_inference_chain.Blockchain.Block.{Block, Hashes, all_transactions}
use ai_inference_chain.Blockchain.Chain.State.{ChainState, stake_of, balance_of}
use ai_inference_chain.Blockchain.Chain.Apply.{
  charge_lem, refund_lem, credit, debit, set_stake, set_nonce, pay_fee, remember_pubkey, deactivate,
  apply_payload, apply_tx, apply_txs, apply_block, apply_transfer, apply_stake, apply_unstake,
  apply_register, apply_register_dnn, apply_register_pos, apply_response, apply_deploy, apply_call,
  apply_slash, apply_verify, apply_admitted, apply_rejected,
}

-- All tokens: free and staked.
abbrev pub supply : ChainState → Amount
supply s = sum_values s.balances +ℤ sum_values s.stakes

supply-credit : (a : Text) (x : Amount) (s : ChainState) → supply (credit a x s) ≡ supply s +ℤ x
unfolding credit
supply-credit a x s =
    omega (int_laws, parts_of_eq (sum_values-insert a (balance_of s a +ℤ x) s.balances))

supply-debit : (a : Text) (x : Amount) (s : ChainState) → supply (debit a x s) ≡ supply s -ℤ x
unfolding debit
supply-debit a x s =
    omega (int_laws, parts_of_eq (sum_values-insert a (balance_of s a -ℤ x) s.balances))

supply-set_stake :
    (a : Text) (x : Amount) (s : ChainState)
    → supply (set_stake a x s) +ℤ stake_of s a ≡ supply s +ℤ x
unfolding set_stake
supply-set_stake a x s = omega (int_laws, parts_of_eq (sum_values-insert a x s.stakes))

stake_of-debit :
    (a : Text) (x : Amount) (b : Text) (s : ChainState) → stake_of (debit a x s) b ≡ stake_of s b
unfolding debit
stake_of-debit a x b s = refl

supply-set_nonce : (tx : Transaction) (s : ChainState) → supply (set_nonce tx s) ≡ supply s
unfolding set_nonce
supply-set_nonce tx s = refl

supply-remember_pubkey :
    (tx : Transaction) (s : ChainState) → supply (remember_pubkey tx s) ≡ supply s
unfolding remember_pubkey
supply-remember_pubkey tx s = ground arith

supply-deactivate : (a : Text) (s : ChainState) → supply (deactivate a s) ≡ supply s
unfolding deactivate
supply-deactivate a s = ground arith

supply-pay_fee :
    (tx : Transaction) (proposer : Text) (s : ChainState)
    → supply (pay_fee tx proposer s)
      ≡ supply s +ℤ (if is_simple tx && ltb_ℤ (pos 0) tx.fee then tx.fee else pos 0)
unfolding pay_fee
supply-pay_fee tx proposer s = elim (Bool-cases (is_simple tx && ltb_ℤ (pos 0) tx.fee)) [
  | inl e ↦ rw e (supply-credit proposer tx.fee s)
  | inr e ↦ rw e (omega int_laws)
]

stake_of-pay_fee :
    (tx : Transaction) (proposer a : Text) (s : ChainState)
    → stake_of (pay_fee tx proposer s) a ≡ stake_of s a
unfolding pay_fee credit
stake_of-pay_fee tx proposer a s = ground arith

-- What a payload creates (or, below zero, destroys): a reward is minted; the value sent with a
-- contract call and what a slash takes off a stake are burned; nothing else changes the supply.
abbrev pub issued : ChainState → Text → Payload → Amount
issued s sender (Payload.reward p) = p.amount
issued s sender (Payload.contract_call p) = pos 0 -ℤ p.value
issued s sender (Payload.slash p) =
    max_ℤ (pos 0) (stake_of s sender -ℤ p.amount) -ℤ stake_of s sender
issued s sender _ = pos 0

-- A simple transaction pays its fee to the proposer only if it is above zero, and its sender is
-- charged the fee whatever its sign.
abbrev pub fee_gap : Transaction → Amount
fee_gap tx = if is_simple tx && ltb_ℤ tx.fee (pos 0) then pos 0 -ℤ tx.fee else pos 0

supply-apply_transfer :
    (tx : Transaction) (a : Amount) (s : ChainState)
    → supply (apply_transfer tx a s) ≡ supply s -ℤ tx.fee
unfolding apply_transfer
supply-apply_transfer tx a s =
    rw (supply-remember_pubkey, supply-set_nonce, supply-credit, charge_lem, supply-debit)
      (omega int_laws)

supply-apply_stake :
    (tx : Transaction) (a : Amount) (s : ChainState)
    → supply (apply_stake tx a s) ≡ supply s -ℤ tx.fee
unfolding apply_stake
supply-apply_stake tx a s =
    let charged : ChainState = debit tx.sender (a +ℤ tx.fee) s in
    rw (supply-remember_pubkey, supply-set_nonce, charge_lem)
      (omega (
        int_laws,
        parts_of_eq (supply-set_stake tx.sender (stake_of s tx.sender +ℤ a) charged),
        parts_of_eq (supply-debit tx.sender (a +ℤ tx.fee) s),
        parts_of_eq (stake_of-debit tx.sender (a +ℤ tx.fee) tx.sender s),
      ))

supply-apply_unstake :
    (tx : Transaction) (a : Amount) (s : ChainState)
    → supply (apply_unstake tx a s) ≡ supply s -ℤ tx.fee
unfolding apply_unstake
supply-apply_unstake tx a s =
    rw (supply-remember_pubkey, supply-set_nonce, refund_lem, supply-credit)
      (omega (int_laws, parts_of_eq (supply-set_stake tx.sender (stake_of s tx.sender -ℤ a) s)))

supply-apply_call :
    (tx : Transaction) (p : ContractCallPayload) (s : ChainState)
    → supply (apply_call tx p s) ≡ supply s -ℤ tx.fee -ℤ p.value
unfolding apply_call
supply-apply_call tx p s = rw (supply-set_nonce, supply-debit) (omega int_laws)

supply-apply_slash :
    (tx : Transaction) (p : SlashPayload) (s : ChainState)
    → supply (apply_slash tx p s)
      ≡ supply s +ℤ (max_ℤ (pos 0) (stake_of s tx.sender -ℤ p.amount) -ℤ stake_of s tx.sender)
unfolding apply_slash
supply-apply_slash tx p s =
    let left : Amount = max_ℤ (pos 0) (stake_of s tx.sender -ℤ p.amount) in
    grind (int_laws, parts_of_eq (supply-set_stake tx.sender left s), supply-deactivate)

supply-apply_register :
    (tx : Transaction) (p : NodeRegisterPayload) (n : ℕ) (s : ChainState)
    → supply (apply_register tx p n s) ≡ supply s -ℤ tx.fee
unfolding apply_register
supply-apply_register tx p n s = rw (supply-set_nonce, supply-debit) refl

supply-apply_register_dnn :
    (tx : Transaction) (p : NodeRegisterDnnPayload) (n : ℕ) (s : ChainState)
    → supply (apply_register_dnn tx p n s) ≡ supply s -ℤ tx.fee
unfolding apply_register_dnn
supply-apply_register_dnn tx p n s = rw (supply-set_nonce, supply-debit) refl

supply-apply_register_pos :
    (tx : Transaction) (p : NodeRegisterPosPayload) (n : ℕ) (s : ChainState)
    → supply (apply_register_pos tx p n s) ≡ supply s -ℤ tx.fee
unfolding apply_register_pos
supply-apply_register_pos tx p n s = rw (supply-set_nonce, supply-debit) refl

supply-apply_response :
    (tx : Transaction) (s : ChainState) → supply (apply_response tx s) ≡ supply s -ℤ tx.fee
unfolding apply_response
supply-apply_response tx s = rw (supply-debit, supply-set_nonce) refl

supply-apply_deploy :
    (h : Hashes) (tx : Transaction) (p : ContractDeployPayload) (n : ℕ) (s : ChainState)
    → supply (apply_deploy h tx p n s) ≡ supply s -ℤ tx.fee
unfolding apply_deploy
supply-apply_deploy h tx p n s = rw (supply-set_nonce, supply-debit) refl

supply-apply_verify :
    (tx : Transaction) (p : ModelVerifyPayload) (s : ChainState)
    → supply (apply_verify tx p s) ≡ supply s
unfolding apply_verify
supply-apply_verify tx p s = ground arith

supply-apply_admitted :
    (p : NodeAdmittedPayload) (n : ℕ) (s : ChainState) → supply (apply_admitted p n s) ≡ supply s
unfolding apply_admitted
supply-apply_admitted p n s = ground arith

supply-apply_rejected :
    (p : NodeRejectedPayload) (s : ChainState) → supply (apply_rejected p s) ≡ supply s
unfolding apply_rejected
supply-apply_rejected p s = supply-deactivate p.node_id s

-- Whether the sender is charged.
abbrev charge : Payload → Amount → Amount
charge p fee = if is_simple_family (family_of (type_of p)) then fee else pos 0

supply-apply_payload :
    (h : Hashes) (tx : Transaction) (p : Payload) (n : ℕ) (s : ChainState)
    → supply (apply_payload h tx p n s) ≡ supply s -ℤ charge p tx.fee +ℤ issued s tx.sender p
unfolding apply_payload
supply-apply_payload h tx (Payload.token_transfer a) n s =
    rw (supply-apply_transfer tx a s) (omega int_laws)
supply-apply_payload h tx (Payload.stake a) n s = rw (supply-apply_stake tx a s) (omega int_laws)
supply-apply_payload h tx (Payload.unstake a) n s =
    rw (supply-apply_unstake tx a s) (omega int_laws)
supply-apply_payload h tx (Payload.contract_call p) n s =
    rw (supply-apply_call tx p s) (omega int_laws)
supply-apply_payload h tx (Payload.slash p) n s = rw (supply-apply_slash tx p s) (omega int_laws)
supply-apply_payload h tx (Payload.node_register p) n s =
    rw (supply-apply_register tx p n s) (omega int_laws)
supply-apply_payload h tx (Payload.node_register_dnn p) n s =
    rw (supply-apply_register_dnn tx p n s) (omega int_laws)
supply-apply_payload h tx (Payload.node_register_pos p) n s =
    rw (supply-apply_register_pos tx p n s) (omega int_laws)
supply-apply_payload h tx (Payload.model_response p) n s =
    rw (supply-apply_response tx s) (omega int_laws)
supply-apply_payload h tx (Payload.contract_deploy p) n s =
    rw (supply-apply_deploy h tx p n s) (omega int_laws)
supply-apply_payload h tx (Payload.reward p) n s =
    rw (supply-credit tx.recipient p.amount s) (omega int_laws)
supply-apply_payload h tx (Payload.model_verify p) n s =
    rw (supply-apply_verify tx p s) (omega int_laws)
supply-apply_payload h tx (Payload.node_admitted p) n s =
    rw (supply-apply_admitted p n s) (omega int_laws)
supply-apply_payload h tx (Payload.node_rejected p) n s =
    rw (supply-apply_rejected p s) (omega int_laws)
supply-apply_payload h tx (Payload.inference_request p) n s = omega int_laws
supply-apply_payload h tx (Payload.inference_response p) n s = omega int_laws
supply-apply_payload h tx (Payload.consensus_result p) n s = omega int_laws
supply-apply_payload h tx (Payload.model_challenge p) n s = omega int_laws

issued-pay_fee :
    (tx : Transaction) (p : Payload) (proposer a : Text) (s : ChainState)
    → issued (pay_fee tx proposer s) a p ≡ issued s a p
issued-pay_fee tx (Payload.slash p) proposer a s = rw (stake_of-pay_fee tx proposer a s)
issued-pay_fee tx _ proposer a s = refl

fee_balance :
    (b : Bool) (fee total issue : Amount)
    → total
        +ℤ (if b && ltb_ℤ (pos 0) fee then fee else pos 0)
        -ℤ (if b then fee else pos 0)
        +ℤ issue
      ≡ total +ℤ issue +ℤ (if b && ltb_ℤ fee (pos 0) then pos 0 -ℤ fee else pos 0)
fee_balance true fee total issue = grind int_laws
fee_balance false fee total issue = omega int_laws

-- One transaction changes the supply by exactly what its payload issues, plus the amount by which
-- its fee is below zero if it is a simple transaction. Transfers, staking and registrations with a
-- fee of zero or more conserve it.
pub supply-apply_tx :
    (h : Hashes) (n : ℕ) (proposer : Text) (tx : Transaction) (s : ChainState)
    → supply (apply_tx h n proposer tx s) ≡ supply s +ℤ issued s tx.sender tx.payload +ℤ fee_gap tx
unfolding apply_tx
supply-apply_tx h n proposer tx s =
    rw (supply-apply_payload h tx tx.payload n (pay_fee tx proposer s), supply-pay_fee)
      (rw (issued-pay_fee tx tx.payload proposer tx.sender s)
        (fee_balance (is_simple tx) tx.fee (supply s) (issued s tx.sender tx.payload)))

-- What a list of transactions issues when each is applied after those before it.
abbrev pub issued_by : Hashes → ℕ → Text → List Transaction → ChainState → Amount
issued_by h n proposer [] s = pos 0
issued_by h n proposer (tx ∷ txs) s =
    issued s tx.sender tx.payload
    +ℤ fee_gap tx
    +ℤ issued_by h n proposer txs (apply_tx h n proposer tx s)

supply-apply_txs :
    (h : Hashes) (n : ℕ) (proposer : Text) (txs : List Transaction) (s : ChainState)
    → supply (apply_txs h n proposer txs s) ≡ supply s +ℤ issued_by h n proposer txs s
unfolding apply_txs
supply-apply_txs h n proposer [] s = omega int_laws
supply-apply_txs h n proposer (tx ∷ txs) s =
    rw (supply-apply_txs h n proposer txs (apply_tx h n proposer tx s), supply-apply_tx)
      (omega int_laws)

-- A transaction that only moves tokens: no reward, call with value or slash, and no negative fee.
abbrev pub Moves : Transaction → Type 0
Moves tx = ((s : ChainState) → issued s tx.sender tx.payload ≡ pos 0) × (fee_gap tx ≡ pos 0)

issued_by-Moves :
    (h : Hashes) (n : ℕ) (proposer : Text) (txs : List Transaction) (s : ChainState)
    → All Moves txs
    → issued_by h n proposer txs s ≡ pos 0
issued_by-Moves h n proposer [] s m = refl
issued_by-Moves h n proposer (tx ∷ txs) s m =
    rw (m.0.0 s, m.0.1, issued_by-Moves h n proposer txs (apply_tx h n proposer tx s) m.1)
      (omega int_laws)

-- A block whose transactions only move tokens (no reward, no slash, no contract call that sends a
-- value, no simple transaction with a negative fee) leaves the supply, free and staked tokens
-- together, exactly as it was.
pub supply-apply_block :
    (h : Hashes) (b : Block) (s : ChainState)
    → All Moves (all_transactions b)
    → supply (apply_block h b s) ≡ supply s
unfolding apply_block
supply-apply_block h b s m =
    rw
      (
        supply-apply_txs h b.header.height b.header.proposer_id (all_transactions b) s,
        issued_by-Moves h b.header.height b.header.proposer_id (all_transactions b) s m,
      )
      (omega int_laws)
