-- ===== src/Blockchain/Codec/Transactions.antt =====
-- `to_dict` and `from_dict` of the class Transaction of core/blockchain/transaction.py.
use ai_inference_chain.Prelude.{ℕ, none, some, [], ◌∷◌, Result, ok, err, ◌>>=◌}
use ai_inference_chain.Prelude.Int.{pos}
use ai_inference_chain.Prelude.Dict.{Dict, lookup}
use ai_inference_chain.Blockchain.Constants.{Text, no_text}
use ai_inference_chain.Blockchain.Transaction.{
  TxFamily, TxType, Transaction, Signature, tx_type, family,
}
use ai_inference_chain.Blockchain.Codec.Keys.{
  public_key_key, tx_id_key, tx_type_key, family_key, sender_key, recipient_key, payload_key,
  nonce_key, fee_key, timestamp_key, signature_key,
}
use ai_inference_chain.Blockchain.Codec.Json.{
  Json, CodecError, unknown_member, ill_typed, at, as_text, as_nat, as_number, as_sig,
}
use ai_inference_chain.Blockchain.Codec.Payloads.{payload_to_dict, payload_from_dict}

-- `tx_type.value`: a number for each of the texts
abbrev pub type_value : TxType → Text
type_value TxType.token_transfer = 100
type_value TxType.stake = 101
type_value TxType.unstake = 102
type_value TxType.node_register = 103
type_value TxType.node_register_dnn = 104
type_value TxType.node_register_pos = 105
type_value TxType.model_response = 106
type_value TxType.contract_deploy = 107
type_value TxType.contract_call = 108
type_value TxType.inference_request = 109
type_value TxType.inference_response = 110
type_value TxType.consensus_result = 111
type_value TxType.reward = 112
type_value TxType.slash = 113
type_value TxType.model_challenge = 114
type_value TxType.model_verify = 115
type_value TxType.node_admitted = 116
type_value TxType.node_rejected = 117

-- The members of `TxType` with their values.
abbrev pub type_values : Dict TxType
type_values =
    (100, TxType.token_transfer)
    ∷ (101, TxType.stake)
    ∷ (102, TxType.unstake)
    ∷ (103, TxType.node_register)
    ∷ (104, TxType.node_register_dnn)
    ∷ (105, TxType.node_register_pos)
    ∷ (106, TxType.model_response)
    ∷ (107, TxType.contract_deploy)
    ∷ (108, TxType.contract_call)
    ∷ (109, TxType.inference_request)
    ∷ (110, TxType.inference_response)
    ∷ (111, TxType.consensus_result)
    ∷ (112, TxType.reward)
    ∷ (113, TxType.slash)
    ∷ (114, TxType.model_challenge)
    ∷ (115, TxType.model_verify)
    ∷ (116, TxType.node_admitted)
    ∷ (117, TxType.node_rejected)
    ∷ []

-- `TxType(value)`
abbrev pub type_of_value : Text → Result CodecError TxType
type_of_value v = elim (lookup v type_values) [ none ↦ err unknown_member | some t ↦ ok t ]

abbrev pub family_value : TxFamily → Text
family_value TxFamily.simple = 120
family_value TxFamily.inference = 121
family_value TxFamily.system = 122

-- A value of a transaction's dict: a plain one, or the payload's dict.
pub data TxValue : Type 0 where
  plain : Json → TxValue
  nested : Dict Json → TxValue

abbrev as_plain : TxValue → Result CodecError Json
as_plain (plain v) = ok v
as_plain (nested d) = err ill_typed

abbrev as_nested : TxValue → Result CodecError (Dict Json)
as_nested (plain v) = err ill_typed
as_nested (nested d) = ok d

unfoldable pub to_dict : Transaction → Dict TxValue
unfolding payload_to_dict
to_dict tx =
    (tx_id_key, plain (Json.text tx.tx_id))
    ∷ (tx_type_key, plain (Json.text (type_value (tx_type tx))))
    ∷ (family_key, plain (Json.text (family_value (family tx))))
    ∷ (sender_key, plain (Json.text tx.sender))
    ∷ (recipient_key, plain (Json.text tx.recipient))
    ∷ (payload_key, nested (payload_to_dict tx.payload))
    ∷ (nonce_key, plain (Json.nat tx.nonce))
    ∷ (fee_key, plain (Json.number tx.fee))
    ∷ (timestamp_key, plain (Json.nat tx.timestamp))
    ∷ (signature_key, plain (Json.sig tx.signature))
    ∷ (public_key_key, plain (Json.text tx.public_key))
    ∷ []

-- `d.get(k, x)`, where the dict holds a plain value
get_plain : ℕ → Dict TxValue → Json → Result CodecError Json
get_plain k d x = elim (lookup k d) [ none ↦ ok x | some v ↦ as_plain v ]

-- `from_dict`: the id that `__post_init__` computes is overwritten by that of the dict.
unfoldable pub from_dict : Dict TxValue → Result CodecError Transaction
unfolding get_plain payload_from_dict
from_dict d = do
  t ← at tx_type_key d >>= as_plain >>= as_text >>= type_of_value
  payload ← at payload_key d >>= as_nested >>= payload_from_dict t
  sender ← at sender_key d >>= as_plain >>= as_text
  nonce ← at nonce_key d >>= as_plain >>= as_nat
  fee ← get_plain fee_key d (Json.number (pos 0)) >>= as_number
  recipient ← get_plain recipient_key d (Json.text no_text) >>= as_text
  timestamp ← at timestamp_key d >>= as_plain >>= as_nat
  signature ← get_plain signature_key d (Json.sig Signature.missing) >>= as_sig
  public_key ← get_plain public_key_key d (Json.text no_text) >>= as_text
  tx_id ← at tx_id_key d >>= as_plain >>= as_text
  ok (record {
    sender = sender;
    payload = payload;
    nonce = nonce;
    fee = fee;
    recipient = recipient;
    timestamp = timestamp;
    signature = signature;
    public_key = public_key;
    tx_id = tx_id;
  })
