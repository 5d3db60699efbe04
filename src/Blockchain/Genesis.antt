-- ===== src/Blockchain/Genesis.antt =====
-- core/blockchain/genesis.py. An argument that is None is an empty list here; a node dict is a record
-- of the keys that are read, an optional one with its default put in.
pub mod Accounts
pub mod Balances
mod Tests
use ai_inference_chain.Prelude.{ℕ, suc, ◌+◌, ◌*◌, Option, none, some, List, [], ◌∷◌, ◌++◌}
use ai_inference_chain.Prelude.Int.{pos}
use ai_inference_chain.Prelude.Dict.{Dict, insert, get_or}
use ai_inference_chain.Blockchain.Constants.{Text, Blob, Amount, no_text, thousands}
use ai_inference_chain.Blockchain.Transaction.{
  Transaction, Payload, Signature, NodeRegisterPayload, NodeRegisterDnnPayload, NodeAdmittedPayload,
}
use ai_inference_chain.Blockchain.Block.{
  Block, BlockHeader, BlockType, ConsensusProof, Hashes, compute_merkle_root,
}

-- `Transaction._compute_id`
abbrev pub Ids : Type 0
Ids = Transaction → Text

-- "0" * 40 and "0" * 64, "genesis" and "dnn"
abbrev pub genesis_address : Text
genesis_address = 3

abbrev pub zero_hash : Text
zero_hash = 8

abbrev pub genesis_text : Text
genesis_text = 9

abbrev pub dnn_text : Text
dnn_text = 10

pub record GenesisNode : Type 0 where
  pub address : Text
  pub model_name : Text
  pub public_key : Text
  pub endpoint : Text

pub record GenesisDnnNode : Type 0 where
  pub address : Text
  pub model_name : Text
  pub public_key : Text
  pub endpoint : Text
  pub weights_hash : Text
  pub dataset_id : Text
  pub architecture : Blob
  pub stake : Amount

module _ (id_of : Ids) (ts : ℕ) where
  -- `Transaction(…)` with the signature "genesis" and no fee
  abbrev pub genesis_tx : Text → Text → Payload → ℕ → Transaction
  genesis_tx sender recipient payload nonce =
      let tx : Transaction = record {
        sender = sender;
        payload = payload;
        nonce = nonce;
        fee = pos 0;
        recipient = recipient;
        timestamp = ts;
        signature = Signature.genesis;
        public_key = no_text;
        tx_id = no_text;
      } in
      record tx { tx_id = id_of tx }

  -- `nonce_counter.get(a, 0) + 1`
  abbrev pub next_nonce : Text → Dict ℕ → ℕ
  next_nonce a counter = get_or a counter 0 + 1

  -- The token allocations, and the counter after them.
  unfoldable pub allocate : Dict Amount → Dict ℕ → List Transaction × Dict ℕ
  allocate [] counter = ([], counter)
  allocate ((a, amount) ∷ allocations) counter =
      let n : ℕ = next_nonce genesis_address counter in
      let (txs, counter') = allocate allocations (insert genesis_address n counter) in
      (genesis_tx genesis_address a (Payload.token_transfer amount) n ∷ txs, counter')

  unfoldable pub register_nodes : List GenesisNode → Dict ℕ → List Transaction × Dict ℕ
  register_nodes [] counter = ([], counter)
  register_nodes (node ∷ nodes) counter =
      let n : ℕ = next_nonce node.address counter in
      let (txs, counter') = register_nodes nodes (insert node.address n counter) in
      (
        genesis_tx node.address no_text
              (Payload.node_register (record {
                model_name = node.model_name;
                public_key = node.public_key;
                endpoint = node.endpoint;
              }))
              n
            ∷ txs,
        counter',
      )

  abbrev pub register_dnn_tx : GenesisDnnNode → ℕ → Transaction
  register_dnn_tx node n =
      genesis_tx node.address no_text
        (Payload.node_register_dnn (record {
          model_name = node.model_name;
          architecture = node.architecture;
          weights_hash = node.weights_hash;
          endpoint = node.endpoint;
          dataset_id = node.dataset_id;
          public_key = node.public_key;
        }))
        n

  -- NODE_REGISTER_DNN and STAKE of a node.
  abbrev pub dnn_simple : GenesisDnnNode → ℕ → List Transaction
  dnn_simple node n =
      register_dnn_tx node n
      ∷ genesis_tx node.address no_text (Payload.stake node.stake) (n + 1)
      ∷ []

  -- The simple transactions of the DNN nodes.
  unfoldable pub register_dnn : List GenesisDnnNode → Dict ℕ → List Transaction
  register_dnn [] counter = []
  register_dnn (node ∷ nodes) counter =
      let n : ℕ = next_nonce node.address counter in
      dnn_simple node n ++ register_dnn nodes (insert node.address (n + 1) counter)

  -- Their NODE_ADMITTED transactions, from `sys_nonce` on.
  unfoldable pub admit_dnn : List GenesisDnnNode → ℕ → List Transaction
  admit_dnn [] sys_nonce = []
  admit_dnn (node ∷ nodes) sys_nonce =
      genesis_tx genesis_address no_text
        (Payload.node_admitted
          (record { node_id = node.address; node_type = dnn_text; final_accuracy = thousands 1 }))
        (sys_nonce + 1)
      ∷ admit_dnn nodes (sys_nonce + 1)

  unfoldable pub genesis_simple :
      Dict Amount → List GenesisNode → List GenesisDnnNode → List Transaction
  genesis_simple allocations nodes dnns =
      let (transfers, counter) = allocate allocations [] in
      let (registered, counter') = register_nodes nodes counter in
      transfers ++ (registered ++ register_dnn dnns counter')

  unfoldable pub genesis_system :
      Dict Amount → List GenesisNode → List GenesisDnnNode → List Transaction
  genesis_system allocations nodes dnns =
      let (transfers, counter) = allocate allocations [] in
      let (registered, counter') = register_nodes nodes counter in
      admit_dnn dnns (get_or genesis_address counter' 0)

-- The block with the root and the transactions.
abbrev pub genesis_block : ℕ → Text → Text → List Transaction → List Transaction → Block
genesis_block ts proposer root simple system = record {
  header = record {
    prev_hash = zero_hash;
    height = 0;
    timestamp = ts;
    proposer_id = proposer;
    merkle_root = root;
    block_type = BlockType.pos;
    view = 0;
  };
  simple_txs = simple;
  consensus_proof = record {
    consensus_type = BlockType.pos;
    view = 0;
    signatures = (genesis_address, genesis_text) ∷ [];
  };
  inference_tx = none;
  system_txs = system;
}

-- none is the exception of a Merkle tree, which does not occur.
unfoldable pub create_genesis_block :
    Ids → ℕ → Hashes → Dict Amount → List GenesisNode → List GenesisDnnNode → Text → Option Block
create_genesis_block id_of ts h allocations nodes dnns proposer =
    let simple : List Transaction = genesis_simple id_of ts allocations nodes dnns in
    elim (compute_merkle_root h simple) [
      | none ↦ none
      | some root ↦
          some
            (genesis_block ts proposer root simple (genesis_system id_of ts allocations nodes dnns))
    ]

-- "a" * 40
abbrev pub reserve_address : Text
reserve_address = 11

-- `GENESIS_ALLOCATION`
abbrev pub genesis_allocation : Amount
genesis_allocation = thousands 10000000

unfoldable pub default_genesis : Ids → ℕ → Hashes → Option Block
unfolding create_genesis_block
default_genesis id_of ts h =
    create_genesis_block id_of ts h ((reserve_address, genesis_allocation) ∷ []) [] []
      genesis_address
