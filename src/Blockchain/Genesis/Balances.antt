-- ===== src/Blockchain/Genesis/Balances.antt =====
-- The balances and the stakes on a chain that core/blockchain/genesis.py starts.
use ai_inference_chain.Prelude.{
  ℕ, ◌+◌, ◌≡◌, ◌≢◌, refl, sym, ap, subst, ok, ◌∙◌, false, some, List, [], ◌∷◌, ◌++◌, if◌then◌else◌,
  ◌==◌, arith,
}
use ai_inference_chain.Prelude.Int.{pos, ◌+ℤ◌, ◌-ℤ◌, int_laws}
use ai_inference_chain.Prelude.Dict.{Dict, insert, get_or}
use ai_inference_chain.Blockchain.Constants.{Text, Amount, no_text}
use ai_inference_chain.Blockchain.Transaction.{
  Transaction, Payload, NodeRegisterPayload, NodeRegisterDnnPayload, NodeAdmittedPayload,
}
use ai_inference_chain.Blockchain.Block.{Block, Hashes, validate_structure}
use ai_inference_chain.Blockchain.Chain.{new_chain}
use ai_inference_chain.Blockchain.Chain.State.{ChainState, empty_state, balance_of, stake_of}
use ai_inference_chain.Blockchain.Chain.Apply.{
  apply_tx, apply_txs, apply_block, apply_payload, pay_fee, charge, charge_lem, credit, debit,
  set_stake, set_nonce, remember_pubkey, apply_transfer, apply_stake, apply_register,
  apply_register_dnn, apply_admitted,
}
use ai_inference_chain.Blockchain.Chain.Replay.{apply_txs-append}
use ai_inference_chain.Blockchain.Block.Merkle.{compute_merkle_root-total}
use ai_inference_chain.Blockchain.Genesis.Accounts.{
  balance_of-credit, balance_of-debit, stake_of-more,
}
use ai_inference_chain.Blockchain.Genesis.{
  Ids, GenesisNode, GenesisDnnNode, genesis_address, genesis_tx, next_nonce, allocate,
  register_nodes, register_dnn_tx, dnn_simple, register_dnn, admit_dnn, genesis_simple,
  genesis_system, genesis_block, create_genesis_block,
}

module _ (a : Text) where
  -- What the allocations and the stakes of the nodes give to the address.
  abbrev pub allocated : Dict Amount → Amount
  allocated [] = pos 0
  allocated ((b, amount) ∷ allocations) =
      (if a == b then amount else pos 0) +ℤ allocated allocations

  abbrev pub staked : List GenesisDnnNode → Amount
  staked [] = pos 0
  staked (node ∷ nodes) = (if a == node.address then node.stake else pos 0) +ℤ staked nodes

module _ (h : Hashes) (n : ℕ) (proposer : Text) (id_of : Ids) (ts : ℕ) (a : Text) where
  balance_of-transfer :
      (b : Text) (amount : Amount) (nonce : ℕ) (s : ChainState)
      → a ≢ genesis_address
      → balance_of
          (apply_tx h n proposer
            (genesis_tx id_of ts genesis_address b (Payload.token_transfer amount) nonce)
            s)
          a
        ≡ balance_of s a +ℤ (if a == b then amount else pos 0)
  unfolding apply_tx apply_payload pay_fee apply_transfer remember_pubkey set_nonce
  balance_of-transfer b amount nonce s k =
      let paid : ChainState = charge genesis_address amount (pos 0) s in
      let other : (a == genesis_address) ≡ false = ground (arith, k) in
      balance_of-credit a b amount paid
      ∙ ap (λ v. v +ℤ (if a == b then amount else pos 0))
          (ap (λ t. balance_of t a) (charge_lem genesis_address amount (pos 0) s)
            ∙ balance_of-debit a genesis_address (amount +ℤ pos 0) s
            ∙ rw other (omega int_laws))

  -- A change of the balance and of the stake of the address.
  Moves : ChainState → Amount → Amount → ChainState → Type 0
  Moves s x y s' = (balance_of s' a ≡ balance_of s a +ℤ x) × (stake_of s' a ≡ stake_of s a +ℤ y)

  Moves-then :
      (s s' s'' : ChainState) (x y x' y' x'' y'' : Amount)
      → Moves s x y s'
      → Moves s' x' y' s''
      → x +ℤ x' ≡ x''
      → y +ℤ y' ≡ y''
      → Moves s x'' y'' s''
  unfolding Moves
  Moves-then s s' s'' x y x' y' x'' y'' f g p q =
      (g.0 ∙ rw (f.0, sym p) (omega int_laws), g.1 ∙ rw (f.1, sym q) (omega int_laws))

  Moves-none : (s : ChainState) → Moves s (pos 0) (pos 0) s
  unfolding Moves
  Moves-none s = (omega int_laws, omega int_laws)

  -- The transactions of two lists, one after the other.
  Moves-append :
      (xs ys : List Transaction) (s : ChainState) (x y x' y' x'' y'' : Amount)
      → Moves s x y (apply_txs h n proposer xs s)
      → ((t : ChainState) → Moves t x' y' (apply_txs h n proposer ys t))
      → x +ℤ x' ≡ x''
      → y +ℤ y' ≡ y''
      → Moves s x'' y'' (apply_txs h n proposer (xs ++ ys) s)
  Moves-append xs ys s x y x' y' x'' y'' f g p q =
      subst (λ t. Moves s x'' y'' t) (sym (apply_txs-append h n proposer xs ys s))
        (Moves-then s _ _ x y x' y' x'' y'' f (g _) p q)

  transfer-Moves :
      (b : Text) (amount : Amount) (nonce : ℕ) (s : ChainState)
      → a ≢ genesis_address
      → Moves s (if a == b then amount else pos 0) (pos 0) (
          apply_tx h n proposer
            (genesis_tx id_of ts genesis_address b (Payload.token_transfer amount) nonce)
            s)
  unfolding Moves apply_tx apply_payload pay_fee apply_transfer remember_pubkey set_nonce credit
      debit charge
  transfer-Moves b amount nonce s k = (balance_of-transfer b amount nonce s k, omega int_laws)

  register-Moves :
      (tx : Transaction) (p : NodeRegisterPayload) (s : ChainState)
      → tx.fee ≡ pos 0
      → Moves s (pos 0) (pos 0) (apply_register tx p n s)
  unfolding Moves apply_register set_nonce debit
  register-Moves tx p s e =
      let free : balance_of (debit tx.sender tx.fee s) a ≡ balance_of s a +ℤ pos 0 =
        balance_of-debit a tx.sender tx.fee s ∙ rw e (grind int_laws) in
      (free, omega int_laws)

  register_dnn-Moves :
      (tx : Transaction) (p : NodeRegisterDnnPayload) (s : ChainState)
      → tx.fee ≡ pos 0
      → Moves s (pos 0) (pos 0) (apply_register_dnn tx p n s)
  unfolding Moves apply_register_dnn set_nonce debit
  register_dnn-Moves tx p s e =
      let free : balance_of (debit tx.sender tx.fee s) a ≡ balance_of s a +ℤ pos 0 =
        balance_of-debit a tx.sender tx.fee s ∙ rw e (grind int_laws) in
      (free, omega int_laws)

  register_dnn_tx-Moves :
      (node : GenesisDnnNode) (nonce : ℕ) (s : ChainState)
      → Moves s (pos 0) (pos 0) (apply_tx h n proposer (register_dnn_tx id_of ts node nonce) s)
  unfolding apply_tx apply_payload pay_fee
  register_dnn_tx-Moves node nonce s = register_dnn-Moves _ _ s refl

  stake-Moves :
      (b : Text) (amount : Amount) (nonce : ℕ) (s : ChainState)
      → Moves s
          (pos 0 -ℤ (if a == b then amount else pos 0))
          (if a == b then amount else pos 0)
          (apply_tx h n proposer (genesis_tx id_of ts b no_text (Payload.stake amount) nonce) s)
  unfolding Moves apply_tx apply_payload pay_fee apply_stake remember_pubkey set_nonce set_stake
      charge
  stake-Moves b amount nonce s = (
    ap (λ t. balance_of t a) (charge_lem b amount (pos 0) s)
        ∙ balance_of-debit a b (amount +ℤ pos 0) s
        ∙ grind int_laws,
    stake_of-more a b amount s,
  )

  admit-balances :
      (p : NodeAdmittedPayload) (s : ChainState) → (apply_admitted p n s).balances ≡ s.balances
  unfolding apply_admitted
  admit-balances p s = ground arith

  admit-stakes :
      (p : NodeAdmittedPayload) (s : ChainState) → (apply_admitted p n s).stakes ≡ s.stakes
  unfolding apply_admitted
  admit-stakes p s = ground arith

  admit-Moves :
      (p : NodeAdmittedPayload) (s : ChainState) → Moves s (pos 0) (pos 0) (apply_admitted p n s)
  unfolding Moves
  admit-Moves p s = (
    ap (λ b. get_or a b (pos 0)) (admit-balances p s) ∙ omega int_laws,
    ap (λ b. get_or a b (pos 0)) (admit-stakes p s) ∙ omega int_laws,
  )

  allocate-Moves :
      (allocations : Dict Amount) (counter : Dict ℕ) (s : ChainState)
      → a ≢ genesis_address
      → Moves s
          (allocated a allocations)
          (pos 0)
          (apply_txs h n proposer (allocate id_of ts allocations counter).0 s)
  unfolding apply_txs allocate
  allocate-Moves [] counter s k = Moves-none s
  allocate-Moves ((b, amount) ∷ allocations) counter s k =
      Moves-then s _ _ _ _ _ _ _ _
        (transfer-Moves b amount (next_nonce id_of ts genesis_address counter) s k)
        (allocate-Moves allocations _ _ k) refl (omega int_laws)

  register_nodes-Moves :
      (nodes : List GenesisNode) (counter : Dict ℕ) (s : ChainState)
      → Moves s (pos 0) (pos 0) (apply_txs h n proposer (register_nodes id_of ts nodes counter).0 s)
  unfolding apply_txs register_nodes apply_tx apply_payload pay_fee
  register_nodes-Moves [] counter s = Moves-none s
  register_nodes-Moves (node ∷ nodes) counter s =
      Moves-then s _ _ _ _ _ _ _ _ (register-Moves _ _ s refl) (register_nodes-Moves nodes _ _)
        (omega int_laws) (omega int_laws)

  dnn_simple-Moves :
      (node : GenesisDnnNode) (nonce : ℕ) (s : ChainState)
      → Moves s
          (pos 0 -ℤ (if a == node.address then node.stake else pos 0))
          (if a == node.address then node.stake else pos 0)
          (apply_txs h n proposer (dnn_simple id_of ts node nonce) s)
  unfolding apply_txs
  dnn_simple-Moves node nonce s =
      let registered : ChainState = apply_tx h n proposer (register_dnn_tx id_of ts node nonce) s in
      Moves-then s registered _ _ _ _ _ _ _ (register_dnn_tx-Moves node nonce s)
        (stake-Moves node.address node.stake (nonce + 1) registered) (omega int_laws)
        (omega int_laws)

  register_all-Moves :
      (nodes : List GenesisDnnNode) (counter : Dict ℕ) (s : ChainState)
      → Moves s
          (pos 0 -ℤ staked a nodes)
          (staked a nodes)
          (apply_txs h n proposer (register_dnn id_of ts nodes counter) s)
  unfolding apply_txs register_dnn
  register_all-Moves [] counter s =
      Moves-then s s s _ _ _ _ _ _ (Moves-none s) (Moves-none s) (omega int_laws) (omega int_laws)
  register_all-Moves (node ∷ nodes) counter s =
      let nonce : ℕ = next_nonce id_of ts node.address counter in
      let rest : List Transaction =
        register_dnn id_of ts nodes (insert node.address (nonce + 1) counter) in
      Moves-append (dnn_simple id_of ts node nonce) rest s _ _ _ _ _ _
        (dnn_simple-Moves node nonce s) (register_all-Moves nodes _) (omega int_laws)
        (omega int_laws)

  admit_dnn-Moves :
      (nodes : List GenesisDnnNode) (nonce : ℕ) (s : ChainState)
      → Moves s (pos 0) (pos 0) (apply_txs h n proposer (admit_dnn id_of ts nodes nonce) s)
  unfolding apply_txs admit_dnn apply_tx apply_payload pay_fee
  admit_dnn-Moves [] nonce s = Moves-none s
  admit_dnn-Moves (node ∷ nodes) nonce s =
      Moves-then s _ _ _ _ _ _ _ _ (admit-Moves _ s) (admit_dnn-Moves nodes _ _) (omega int_laws)
        (omega int_laws)

  -- The transactions of a genesis block.
  genesis-Moves :
      (allocations : Dict Amount) (nodes : List GenesisNode) (dnns : List GenesisDnnNode)
      (s : ChainState)
      → a ≢ genesis_address
      → Moves s (allocated a allocations -ℤ staked a dnns) (staked a dnns) (
          apply_txs h n proposer
            (genesis_simple id_of ts allocations nodes dnns
              ++ genesis_system id_of ts allocations nodes dnns)
            s)
  unfolding genesis_simple genesis_system
  genesis-Moves allocations nodes dnns s k =
      let counter : Dict ℕ = (allocate id_of ts allocations []).1 in
      let counter' : Dict ℕ = (register_nodes id_of ts nodes counter).1 in
      Moves-append _ _ s _ _ _ _ _ _
        (Moves-append _ _ s _ _ _ _ _ _ (allocate-Moves allocations [] s k)
          (λ t.
            Moves-append _ _ t _ _ _ _ _ _ (register_nodes-Moves nodes counter t)
              (register_all-Moves dnns counter') refl refl)
          refl refl)
        (admit_dnn-Moves dnns (get_or genesis_address counter' 0)) (omega int_laws) (omega int_laws)

-- A genesis block is always made and passes `_validate_structure`, and on the chain that it starts
-- each address but the protocol's own holds what was allocated to it less the stakes of its DNN nodes, and has these
-- stakes, whoever proposes the block.
pub create_genesis_block-balances :
    (h : Hashes) (id_of : Ids) (ts : ℕ) (allocations : Dict Amount) (nodes : List GenesisNode)
    (dnns : List GenesisDnnNode) (proposer a : Text) (f : ℕ)
    → a ≢ genesis_address
    → (g : Block) × (create_genesis_block id_of ts h allocations nodes dnns proposer ≡ some g)
      × (validate_structure g ≡ ok tt)
      × (balance_of (new_chain h f g).state a ≡ allocated a allocations -ℤ staked a dnns)
      × (stake_of (new_chain h f g).state a ≡ staked a dnns)
unfolding create_genesis_block validate_structure new_chain apply_block Moves
create_genesis_block-balances h id_of ts allocations nodes dnns proposer a f k =
    let (root, e) = compute_merkle_root-total h (genesis_simple id_of ts allocations nodes dnns) in
    let moves = genesis-Moves h 0 proposer id_of ts a allocations nodes dnns empty_state k in
    (
      genesis_block ts proposer root (genesis_simple id_of ts allocations nodes dnns)
          (genesis_system id_of ts allocations nodes dnns),
      rw (create_genesis_block, e) refl,
      refl,
      moves.0 ∙ omega int_laws,
      moves.1 ∙ omega int_laws,
    )
