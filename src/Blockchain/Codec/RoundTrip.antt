-- ===== src/Blockchain/Codec/RoundTrip.antt =====
-- Round trips of the dicts of core/blockchain/transaction.py.
use ai_inference_chain.Prelude.{◌≡◌, refl, subst, ok}
use ai_inference_chain.Prelude.Dict.{insert}
use ai_inference_chain.Blockchain.Transaction.{TxType, Payload, Transaction, type_of, tx_type}
use ai_inference_chain.Blockchain.Codec.Keys.{payload_key}
use ai_inference_chain.Blockchain.Codec.Payloads.{payload_to_dict, payload_from_dict}
use ai_inference_chain.Blockchain.Codec.Transactions.{
  nested, type_value, type_of_value, to_dict, from_dict,
}

type_of_value-type_value : (t : TxType) → type_of_value (type_value t) ≡ ok t
type_of_value-type_value TxType.token_transfer = refl
type_of_value-type_value TxType.stake = refl
type_of_value-type_value TxType.unstake = refl
type_of_value-type_value TxType.node_register = refl
type_of_value-type_value TxType.node_register_dnn = refl
type_of_value-type_value TxType.node_register_pos = refl
type_of_value-type_value TxType.model_response = refl
type_of_value-type_value TxType.contract_deploy = refl
type_of_value-type_value TxType.contract_call = refl
type_of_value-type_value TxType.inference_request = refl
type_of_value-type_value TxType.inference_response = refl
type_of_value-type_value TxType.consensus_result = refl
type_of_value-type_value TxType.reward = refl
type_of_value-type_value TxType.slash = refl
type_of_value-type_value TxType.model_challenge = refl
type_of_value-type_value TxType.model_verify = refl
type_of_value-type_value TxType.node_admitted = refl
type_of_value-type_value TxType.node_rejected = refl

payload_from_dict-to_dict : (p : Payload) → payload_from_dict (type_of p) (payload_to_dict p) ≡ ok p
unfolding payload_from_dict payload_to_dict
payload_from_dict-to_dict (Payload.token_transfer p) = refl
payload_from_dict-to_dict (Payload.stake p) = refl
payload_from_dict-to_dict (Payload.unstake p) = refl
payload_from_dict-to_dict (Payload.node_register p) = refl
payload_from_dict-to_dict (Payload.node_register_dnn p) = refl
payload_from_dict-to_dict (Payload.node_register_pos p) = refl
payload_from_dict-to_dict (Payload.model_response p) = refl
payload_from_dict-to_dict (Payload.contract_deploy p) = refl
payload_from_dict-to_dict (Payload.contract_call p) = refl
payload_from_dict-to_dict (Payload.inference_request p) = refl
payload_from_dict-to_dict (Payload.inference_response p) = refl
payload_from_dict-to_dict (Payload.consensus_result p) = refl
payload_from_dict-to_dict (Payload.reward p) = refl
payload_from_dict-to_dict (Payload.slash p) = refl
payload_from_dict-to_dict (Payload.model_challenge p) = refl
payload_from_dict-to_dict (Payload.model_verify p) = refl
payload_from_dict-to_dict (Payload.node_admitted p) = refl
payload_from_dict-to_dict (Payload.node_rejected p) = refl

-- Every transaction survives `to_dict` and `from_dict`, with its id.
pub from_dict-to_dict : (tx : Transaction) → from_dict (to_dict tx) ≡ ok tx
unfolding from_dict to_dict
from_dict-to_dict tx =
    rw (type_of_value-type_value (tx_type tx), payload_from_dict-to_dict tx.payload) refl

-- A dict that `to_dict` wrote, with the payload exchanged for another of the same type, is read
-- without an error as the transaction with the other payload and the old id.
from_dict-tampered :
    (tx : Transaction) (q : Payload)
    → type_of q ≡ type_of tx.payload
    → from_dict (insert payload_key (nested (payload_to_dict q)) (to_dict tx))
      ≡ ok (record tx { payload = q })
unfolding from_dict to_dict
from_dict-tampered tx q e =
    let read : payload_from_dict (tx_type tx) (payload_to_dict q) ≡ ok q =
      subst (λ t. payload_from_dict t (payload_to_dict q) ≡ ok q) e (payload_from_dict-to_dict q) in
    rw (type_of_value-type_value (tx_type tx), read) refl
