-- ===== src/Blockchain/Chain/State.antt =====
-- `NodeInfo`, `ContractInfo` and `ChainState` of core/blockchain/chain.py.
use ai_inference_chain.Prelude.{ℕ, Bool, true, false, List, [], ◌&&◌, keep}
use ai_inference_chain.Prelude.Int.{ℤ, pos, leb_ℤ}
use ai_inference_chain.Prelude.Dict.{Dict, get_or, values}
use ai_inference_chain.Blockchain.Constants.{
  Text, Blob, Amount, NodeType, dnn, pos_only, initial_reputation, min_stake_dnn, min_stake_pos,
}
use ai_inference_chain.Blockchain.Transaction.{ConsensusResultPayload}

pub record NodeInfo : Type 0 where
  pub node_id : Text
  pub address : Text
  pub node_type : NodeType
  pub public_key : Text
  pub endpoint : Text
  pub registered_at : ℕ
  pub is_active : Bool
  pub pom_verified : Bool
  pub pom_block : ℤ
  pub model_name : Text
  pub weights_hash : Text
  pub dataset_id : Text
  pub architecture : Blob

pub record ContractInfo : Type 0 where
  pub address : Text
  pub deployer : Text
  pub bytecode : Text
  pub abi : Blob
  pub state : Blob
  pub created_at : ℕ

-- An entry of `pom_states`. The lists hold verifiers' addresses.
pub record PomState : Type 0 where
  pub positive : List Text
  pub negative : List Text
  pub accuracies : List Amount
  pub node_type : NodeType
  pub weights_hash : Text

pub record ChainState : Type 0 where
  pub balances : Dict Amount
  pub stakes : Dict Amount
  pub nonces : Dict ℕ
  pub nodes : Dict NodeInfo
  pub contracts : Dict ContractInfo
  pub inference_log : Dict ConsensusResultPayload
  pub reputations : Dict Amount
  pub pom_states : Dict PomState
  pub pubkeys : Dict Text

abbrev pub empty_state : ChainState
empty_state = record {
  balances = [];
  stakes = [];
  nonces = [];
  nodes = [];
  contracts = [];
  inference_log = [];
  reputations = [];
  pom_states = [];
  pubkeys = [];
}

abbrev pub balance_of : ChainState → Text → Amount
balance_of s a = get_or a s.balances (pos 0)

abbrev pub stake_of : ChainState → Text → Amount
stake_of s a = get_or a s.stakes (pos 0)

abbrev pub nonce_of : ChainState → Text → ℕ
nonce_of s a = get_or a s.nonces 0

abbrev pub reputation_of : ChainState → Text → Amount
reputation_of s a = get_or a s.reputations initial_reputation

abbrev pub is_dnn : NodeType → Bool
is_dnn dnn = true
is_dnn pos_only = false

unfoldable pub active_nodes : ChainState → List NodeInfo
active_nodes s = keep (λ n. n.is_active) (values s.nodes)

unfoldable pub dnn_validators : ChainState → List NodeInfo
dnn_validators s =
    keep (λ n. is_dnn n.node_type && leb_ℤ min_stake_dnn (stake_of s n.address)) (active_nodes s)

unfoldable pub pos_validators : ChainState → List NodeInfo
pos_validators s = keep (λ n. leb_ℤ min_stake_pos (stake_of s n.address)) (active_nodes s)

unfoldable pub validator_set : ChainState → List NodeInfo
unfolding pos_validators
validator_set s = pos_validators s
