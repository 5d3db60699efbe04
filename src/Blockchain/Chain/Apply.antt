-- ===== src/Blockchain/Chain/Apply.antt =====
-- `_apply_block` and `_apply_tx` of core/blockchain/chain.py, a function for each case.
use ai_inference_chain.Prelude.{
  ℕ, ◌≡◌, ap, true, false, not, ◌&&◌, ◌||◌, none, some, List, [], ◌∷◌, ◌++◌, if◌then◌else◌,
  is_member,
}
use ai_inference_chain.Prelude.Int.{pos, negsuc, ◌+ℤ◌, ◌-ℤ◌, ltb_ℤ, max_ℤ, int_laws}
use ai_inference_chain.Prelude.Dict.{lookup, insert, erase, contains}
use ai_inference_chain.Blockchain.Constants.{
  Text, Amount, NodeType, dnn, pos_only, empty_text, is_truthy, initial_reputation, rep_penalty,
  min_stake,
}
use ai_inference_chain.Blockchain.Transaction.{
  Transaction, Payload, is_simple, NodeRegisterPayload, NodeRegisterDnnPayload,
  NodeRegisterPosPayload, ContractDeployPayload, ContractCallPayload, SlashPayload,
  ModelVerifyPayload, NodeAdmittedPayload, NodeRejectedPayload,
}
use ai_inference_chain.Blockchain.Block.{Block, Hashes, all_transactions}
use ai_inference_chain.Blockchain.Chain.State.{
  NodeInfo, PomState, ChainState, balance_of, stake_of, reputation_of,
}

-- `balances[a] += x` and `stakes[a] += x`
unfoldable pub credit : Text → Amount → ChainState → ChainState
credit a x s = record s { balances = insert a (balance_of s a +ℤ x) s.balances }

unfoldable pub debit : Text → Amount → ChainState → ChainState
debit a x s = record s { balances = insert a (balance_of s a -ℤ x) s.balances }

unfoldable pub set_stake : Text → Amount → ChainState → ChainState
set_stake a x s = record s { stakes = insert a x s.stakes }

unfoldable pub set_nonce : Transaction → ChainState → ChainState
set_nonce tx s = record s { nonces = insert tx.sender tx.nonce s.nonces }

-- The fee of a simple transaction goes to the block's proposer.
unfoldable pub pay_fee : Transaction → Text → ChainState → ChainState
pay_fee tx proposer s = if is_simple tx && ltb_ℤ (pos 0) tx.fee then credit proposer tx.fee s else s

unfoldable pub remember_pubkey : Transaction → ChainState → ChainState
remember_pubkey tx s =
    if is_truthy tx.public_key && not (contains tx.sender s.pubkeys)
    then record s { pubkeys = insert tx.sender tx.public_key s.pubkeys }
    else s

-- `balances[a] = balance_of(a) - x - y`, and the same with `+ x - y`
unfoldable pub charge : Text → Amount → Amount → ChainState → ChainState
charge a x y s = record s { balances = insert a (balance_of s a -ℤ x -ℤ y) s.balances }

unfoldable pub refund : Text → Amount → Amount → ChainState → ChainState
refund a x y s = record s { balances = insert a (balance_of s a +ℤ x -ℤ y) s.balances }

unfoldable pub apply_transfer : Transaction → Amount → ChainState → ChainState
apply_transfer tx amount s =
    remember_pubkey tx
      (set_nonce tx (credit tx.recipient amount (charge tx.sender amount tx.fee s)))

unfoldable pub apply_stake : Transaction → Amount → ChainState → ChainState
apply_stake tx amount s = remember_pubkey tx (
    set_nonce tx
      (set_stake tx.sender (stake_of s tx.sender +ℤ amount) (charge tx.sender amount tx.fee s)))

unfoldable pub apply_unstake : Transaction → Amount → ChainState → ChainState
apply_unstake tx amount s = remember_pubkey tx (
    set_nonce tx
      (refund tx.sender amount tx.fee (set_stake tx.sender (stake_of s tx.sender -ℤ amount) s)))

-- On exact amounts the order of the operations does not matter.
pub charge_lem : (a : Text) (x y : Amount) (s : ChainState) → charge a x y s ≡ debit a (x +ℤ y) s
unfolding charge debit
charge_lem a x y s =
    ap (λ b. record s { balances = insert a b s.balances })
      (let e : balance_of s a -ℤ x -ℤ y ≡ balance_of s a -ℤ (x +ℤ y) = omega int_laws in e)

pub refund_lem : (a : Text) (x y : Amount) (s : ChainState) → refund a x y s ≡ credit a (x -ℤ y) s
unfolding refund credit
refund_lem a x y s =
    ap (λ b. record s { balances = insert a b s.balances })
      (let e : balance_of s a +ℤ x -ℤ y ≡ balance_of s a +ℤ (x -ℤ y) = omega int_laws in e)

-- The node's record, its first reputation, then the fee and the nonce.
register_node : Transaction → NodeInfo → ChainState → ChainState
register_node tx n s = record s {
  nodes = insert tx.sender n s.nodes;
  reputations = insert tx.sender initial_reputation s.reputations;
}

pay_and_count : Transaction → ChainState → ChainState
pay_and_count tx s = set_nonce tx (debit tx.sender tx.fee s)

-- A node as `NodeInfo` makes one with its defaults.
plain_node : Transaction → ℕ → NodeType → Text → Text → NodeInfo
plain_node tx height t key endpoint = record {
  node_id = tx.sender;
  address = tx.sender;
  node_type = t;
  public_key = key;
  endpoint = endpoint;
  registered_at = height;
  is_active = false;
  pom_verified = false;
  pom_block = negsuc 0;
  model_name = empty_text;
  weights_hash = empty_text;
  dataset_id = empty_text;
  architecture = 0;
}

unfoldable pub apply_register : Transaction → NodeRegisterPayload → ℕ → ChainState → ChainState
unfolding register_node pay_and_count plain_node
apply_register tx p height s = pay_and_count tx (
    register_node tx
      (record (plain_node tx height pos_only p.public_key p.endpoint) {
        is_active = true;
        model_name = p.model_name;
      })
      s)

unfoldable pub apply_register_dnn :
    Transaction → NodeRegisterDnnPayload → ℕ → ChainState → ChainState
unfolding register_node pay_and_count plain_node
apply_register_dnn tx p height s =
    let registered : ChainState =
      register_node tx
        (record (plain_node tx height dnn p.public_key p.endpoint) {
          model_name = p.model_name;
          weights_hash = p.weights_hash;
          dataset_id = p.dataset_id;
          architecture = p.architecture;
        })
        s in
    pay_and_count tx (record registered {
      pom_states =
          insert tx.sender
            (record {
              positive = [];
              negative = [];
              accuracies = [];
              node_type = dnn;
              weights_hash = p.weights_hash;
            })
            registered.pom_states;
    })

unfoldable pub apply_register_pos :
    Transaction → NodeRegisterPosPayload → ℕ → ChainState → ChainState
unfolding register_node pay_and_count plain_node
apply_register_pos tx p height s =
    pay_and_count tx (register_node tx (plain_node tx height pos_only p.public_key p.endpoint) s)

unfoldable pub apply_response : Transaction → ChainState → ChainState
apply_response tx s = debit tx.sender tx.fee (set_nonce tx s)

-- One verification of a pending node; a verifier counts once.
unfoldable pub add_verify : Text → ModelVerifyPayload → PomState → PomState
add_verify verifier p st =
    if is_member verifier st.positive || is_member verifier st.negative
    then st
    else (if p.verified
        then record st {
          positive = st.positive ++ verifier ∷ [];
          accuracies = st.accuracies ++ p.accuracy ∷ [];
        }
        else record st {
          negative = st.negative ++ verifier ∷ [];
          accuracies = st.accuracies ++ p.accuracy ∷ [];
        })

unfoldable pub apply_verify : Transaction → ModelVerifyPayload → ChainState → ChainState
apply_verify tx p s = elim (lookup p.node_id s.pom_states) [
  | none ↦ s
  | some st ↦ record s { pom_states = insert p.node_id (add_verify tx.sender p st) s.pom_states }
]

unfoldable pub apply_admitted : NodeAdmittedPayload → ℕ → ChainState → ChainState
apply_admitted p height s = elim (lookup p.node_id s.nodes) [
  | none ↦ s
  | some n ↦ record s {
    nodes =
        insert p.node_id
          (record n { is_active = true; pom_verified = true; pom_block = pos height }) s.nodes;
  }
]

-- `nodes[a].is_active = False`, if there is such a node
unfoldable pub deactivate : Text → ChainState → ChainState
deactivate a s = elim (lookup a s.nodes) [
  | none ↦ s
  | some n ↦ record s { nodes = insert a (record n { is_active = false }) s.nodes }
]

unfoldable pub apply_rejected : NodeRejectedPayload → ChainState → ChainState
apply_rejected p s =
    let s' : ChainState = deactivate p.node_id s in
    record s' { pom_states = erase p.node_id s'.pom_states }

unfoldable pub apply_deploy :
    Hashes → Transaction → ContractDeployPayload → ℕ → ChainState → ChainState
unfolding pay_and_count
apply_deploy h tx p height s =
    let a : Text = h.contract_hash tx.sender tx.nonce in
    pay_and_count tx (record s {
      contracts =
          insert a
            (record {
              address = a;
              deployer = tx.sender;
              bytecode = p.bytecode;
              abi = p.abi;
              state = 0;
              created_at = height;
            })
            s.contracts;
    })

unfoldable pub apply_call : Transaction → ContractCallPayload → ChainState → ChainState
apply_call tx p s = set_nonce tx (debit tx.sender (tx.fee +ℤ p.value) s)

unfoldable pub apply_slash : Transaction → SlashPayload → ChainState → ChainState
apply_slash tx p s =
    let s' : ChainState =
      set_stake tx.sender (max_ℤ (pos 0) (stake_of s tx.sender -ℤ p.amount)) s in
    let s'' : ChainState = record s' {
      reputations =
          insert tx.sender (max_ℤ (pos 0) (reputation_of s tx.sender -ℤ rep_penalty)) s.reputations;
    } in
    if ltb_ℤ (stake_of s'' tx.sender) min_stake then deactivate tx.sender s'' else s''

-- The `match` of `_apply_tx`.
unfoldable pub apply_payload : Hashes → Transaction → Payload → ℕ → ChainState → ChainState
apply_payload h tx (Payload.token_transfer a) n s = apply_transfer tx a s
apply_payload h tx (Payload.stake a) n s = apply_stake tx a s
apply_payload h tx (Payload.unstake a) n s = apply_unstake tx a s
apply_payload h tx (Payload.node_register p) n s = apply_register tx p n s
apply_payload h tx (Payload.node_register_dnn p) n s = apply_register_dnn tx p n s
apply_payload h tx (Payload.node_register_pos p) n s = apply_register_pos tx p n s
apply_payload h tx (Payload.model_response p) n s = apply_response tx s
apply_payload h tx (Payload.contract_deploy p) n s = apply_deploy h tx p n s
apply_payload h tx (Payload.contract_call p) n s = apply_call tx p s
apply_payload h tx (Payload.inference_request p) n s = s
apply_payload h tx (Payload.inference_response p) n s = s
apply_payload h tx (Payload.consensus_result p) n s = record s {
  inference_log = insert p.request_id p s.inference_log;
}
apply_payload h tx (Payload.reward p) n s = credit tx.recipient p.amount s
apply_payload h tx (Payload.slash p) n s = apply_slash tx p s
apply_payload h tx (Payload.model_challenge p) n s = s
apply_payload h tx (Payload.model_verify p) n s = apply_verify tx p s
apply_payload h tx (Payload.node_admitted p) n s = apply_admitted p n s
apply_payload h tx (Payload.node_rejected p) n s = apply_rejected p s

unfoldable pub apply_tx : Hashes → ℕ → Text → Transaction → ChainState → ChainState
apply_tx h height proposer tx s = apply_payload h tx tx.payload height (pay_fee tx proposer s)

unfoldable pub apply_txs : Hashes → ℕ → Text → List Transaction → ChainState → ChainState
apply_txs h height proposer [] s = s
apply_txs h height proposer (tx ∷ txs) s =
    apply_txs h height proposer txs (apply_tx h height proposer tx s)

unfoldable pub apply_block : Hashes → Block → ChainState → ChainState
apply_block h b s = apply_txs h b.header.height b.header.proposer_id (all_transactions b) s
