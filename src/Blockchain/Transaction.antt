-- ===== src/Blockchain/Transaction.antt =====
-- core/blockchain/transaction.py. The payload classes are the constructors of `Payload`; since
-- each class belongs to one `TxType`, a transaction's type is read off its payload, which is how
-- `_payload_from_dict` builds one.
use ai_inference_chain.Prelude.{ℕ, Bool, List}
use ai_inference_chain.Prelude.Int.{ℤ}
use ai_inference_chain.Blockchain.Constants.{Text, Blob, Amount}

pub data TxFamily : Type 0 where
  simple inference system : TxFamily

pub data TxType : Type 0 where
  token_transfer stake unstake node_register node_register_dnn node_register_pos : TxType
  model_response contract_deploy contract_call inference_request inference_response : TxType
  consensus_result reward slash model_challenge model_verify node_admitted node_rejected : TxType

-- `_TX_FAMILY`
abbrev pub family_of : TxType → TxFamily
family_of TxType.token_transfer = simple
family_of TxType.stake = simple
family_of TxType.unstake = simple
family_of TxType.node_register = simple
family_of TxType.node_register_dnn = simple
family_of TxType.node_register_pos = simple
family_of TxType.model_response = simple
family_of TxType.contract_deploy = simple
family_of TxType.contract_call = simple
family_of TxType.inference_request = inference
family_of TxType.inference_response = system
family_of TxType.consensus_result = system
family_of TxType.reward = system
family_of TxType.slash = system
family_of TxType.model_challenge = system
family_of TxType.model_verify = system
family_of TxType.node_admitted = system
family_of TxType.node_rejected = system

pub record NodeRegisterPayload : Type 0 where
  pub model_name : Text
  pub public_key : Text
  pub endpoint : Text

pub record ContractDeployPayload : Type 0 where
  pub bytecode : Text
  pub abi : Blob
  pub constructor_args : Blob

pub record ContractCallPayload : Type 0 where
  pub contract_address : Text
  pub function : Text
  pub args : Blob
  pub value : Amount

pub record InferenceRequestPayload : Type 0 where
  pub request_id : Text
  pub image_hash : Text
  pub model_hint : Text

pub record InferenceResponsePayload : Type 0 where
  pub request_id : Text
  pub node_id : Text
  pub probabilities : List Amount
  pub predicted_class : ℤ

pub record ConsensusResultPayload : Type 0 where
  pub request_id : Text
  pub final_class : ℤ
  pub confidence : Amount
  pub participating_nodes : List Text

-- `RewardPayload` and `SlashPayload` have the same fields.
pub record RewardPayload : Type 0 where
  pub amount : Amount
  pub reason : Text
  pub request_id : Text

pub record SlashPayload : Type 0 where
  pub amount : Amount
  pub reason : Text
  pub request_id : Text

pub record NodeRegisterDnnPayload : Type 0 where
  pub model_name : Text
  pub architecture : Blob
  pub weights_hash : Text
  pub endpoint : Text
  pub dataset_id : Text
  pub public_key : Text

pub record NodeRegisterPosPayload : Type 0 where
  pub endpoint : Text
  pub public_key : Text

pub record ModelChallengePayload : Type 0 where
  pub node_id : Text
  pub challenge_indices : List ℤ
  pub ground_truth : List ℤ
  pub dataset_id : Text

pub record ModelResponsePayload : Type 0 where
  pub node_id : Text
  pub predictions : List ℤ

pub record ModelVerifyPayload : Type 0 where
  pub node_id : Text
  pub verified : Bool
  pub accuracy : Amount
  pub weights_match : Bool

pub record NodeAdmittedPayload : Type 0 where
  pub node_id : Text
  pub node_type : Text
  pub final_accuracy : Amount

pub record NodeRejectedPayload : Type 0 where
  pub node_id : Text
  pub reason : Text

pub data Payload : Type 0 where
  token_transfer stake unstake : Amount → Payload
  node_register : NodeRegisterPayload → Payload
  node_register_dnn : NodeRegisterDnnPayload → Payload
  node_register_pos : NodeRegisterPosPayload → Payload
  model_response : ModelResponsePayload → Payload
  contract_deploy : ContractDeployPayload → Payload
  contract_call : ContractCallPayload → Payload
  inference_request : InferenceRequestPayload → Payload
  inference_response : InferenceResponsePayload → Payload
  consensus_result : ConsensusResultPayload → Payload
  reward : RewardPayload → Payload
  slash : SlashPayload → Payload
  model_challenge : ModelChallengePayload → Payload
  model_verify : ModelVerifyPayload → Payload
  node_admitted : NodeAdmittedPayload → Payload
  node_rejected : NodeRejectedPayload → Payload

abbrev pub type_of : Payload → TxType
type_of (Payload.token_transfer a) = TxType.token_transfer
type_of (Payload.stake a) = TxType.stake
type_of (Payload.unstake a) = TxType.unstake
type_of (Payload.node_register p) = TxType.node_register
type_of (Payload.node_register_dnn p) = TxType.node_register_dnn
type_of (Payload.node_register_pos p) = TxType.node_register_pos
type_of (Payload.model_response p) = TxType.model_response
type_of (Payload.contract_deploy p) = TxType.contract_deploy
type_of (Payload.contract_call p) = TxType.contract_call
type_of (Payload.inference_request p) = TxType.inference_request
type_of (Payload.inference_response p) = TxType.inference_response
type_of (Payload.consensus_result p) = TxType.consensus_result
type_of (Payload.reward p) = TxType.reward
type_of (Payload.slash p) = TxType.slash
type_of (Payload.model_challenge p) = TxType.model_challenge
type_of (Payload.model_verify p) = TxType.model_verify
type_of (Payload.node_admitted p) = TxType.node_admitted
type_of (Payload.node_rejected p) = TxType.node_rejected

-- What `tx.signature` can be, as far as the code tells signatures apart.
pub data Signature : Type 0 where
  missing empty genesis dev : Signature
  signed : Text → Signature

pub record Transaction : Type 0 where
  pub sender : Text
  pub payload : Payload
  pub nonce : ℕ
  pub fee : Amount
  pub recipient : Text
  pub timestamp : ℕ
  pub signature : Signature
  pub public_key : Text
  pub tx_id : Text

abbrev pub tx_type : Transaction → TxType
tx_type tx = type_of tx.payload

abbrev pub family : Transaction → TxFamily
family tx = family_of (tx_type tx)

abbrev pub is_simple_family : TxFamily → Bool
is_simple_family simple = Bool.true
is_simple_family inference = Bool.false
is_simple_family system = Bool.false

abbrev pub is_simple : Transaction → Bool
is_simple tx = is_simple_family (family tx)

abbrev pub is_inference_family : TxFamily → Bool
is_inference_family simple = Bool.false
is_inference_family inference = Bool.true
is_inference_family system = Bool.false

abbrev pub is_inference : Transaction → Bool
is_inference tx = is_inference_family (family tx)
