-- ===== src/Blockchain/Codec/Payloads.antt =====
-- `to_dict` of the payload classes, and `_payload_from_dict`, of core/blockchain/transaction.py.
use ai_inference_chain.Prelude.{ℕ, none, some, [], ◌∷◌, Result, ok, ◌>>=◌}
use ai_inference_chain.Prelude.Int.{pos}
use ai_inference_chain.Prelude.Dict.{Dict, lookup}
use ai_inference_chain.Blockchain.Constants.{Amount}
use ai_inference_chain.Blockchain.Transaction.{TxType, Payload}
use ai_inference_chain.Blockchain.Codec.Keys.{
  amount_key, model_name_key, public_key_key, endpoint_key, bytecode_key, abi_key,
  constructor_args_key, contract_address_key, function_key, args_key, value_key, request_id_key,
  image_hash_key, model_hint_key, node_id_key, probabilities_key, predicted_class_key,
  final_class_key, confidence_key, participating_nodes_key, reason_key, architecture_key,
  weights_hash_key, dataset_id_key, challenge_indices_key, ground_truth_key, predictions_key,
  verified_key, accuracy_key, weights_match_key, node_type_key, final_accuracy_key,
}
use ai_inference_chain.Blockchain.Codec.Json.{
  Json, CodecError, at, as_text, as_int, as_number, as_flag, as_blob, as_ints, as_numbers, as_texts,
}

-- `payload.to_dict()`
unfoldable pub payload_to_dict : Payload → Dict Json
payload_to_dict (Payload.token_transfer a) = (amount_key, Json.number a) ∷ []
payload_to_dict (Payload.stake a) = (amount_key, Json.number a) ∷ []
payload_to_dict (Payload.unstake a) = (amount_key, Json.number a) ∷ []
payload_to_dict (Payload.node_register p) =
    (model_name_key, Json.text p.model_name)
    ∷ (public_key_key, Json.text p.public_key)
    ∷ (endpoint_key, Json.text p.endpoint)
    ∷ []
payload_to_dict (Payload.node_register_dnn p) =
    (model_name_key, Json.text p.model_name)
    ∷ (architecture_key, Json.blob p.architecture)
    ∷ (weights_hash_key, Json.text p.weights_hash)
    ∷ (endpoint_key, Json.text p.endpoint)
    ∷ (dataset_id_key, Json.text p.dataset_id)
    ∷ (public_key_key, Json.text p.public_key)
    ∷ []
payload_to_dict (Payload.node_register_pos p) =
    (endpoint_key, Json.text p.endpoint) ∷ (public_key_key, Json.text p.public_key) ∷ []
payload_to_dict (Payload.model_response p) =
    (node_id_key, Json.text p.node_id) ∷ (predictions_key, Json.ints p.predictions) ∷ []
payload_to_dict (Payload.contract_deploy p) =
    (bytecode_key, Json.text p.bytecode)
    ∷ (abi_key, Json.blob p.abi)
    ∷ (constructor_args_key, Json.blob p.constructor_args)
    ∷ []
payload_to_dict (Payload.contract_call p) =
    (contract_address_key, Json.text p.contract_address)
    ∷ (function_key, Json.text p.function)
    ∷ (args_key, Json.blob p.args)
    ∷ (value_key, Json.number p.value)
    ∷ []
payload_to_dict (Payload.inference_request p) =
    (request_id_key, Json.text p.request_id)
    ∷ (image_hash_key, Json.text p.image_hash)
    ∷ (model_hint_key, Json.text p.model_hint)
    ∷ []
payload_to_dict (Payload.inference_response p) =
    (request_id_key, Json.text p.request_id)
    ∷ (node_id_key, Json.text p.node_id)
    ∷ (probabilities_key, Json.numbers p.probabilities)
    ∷ (predicted_class_key, Json.int p.predicted_class)
    ∷ []
payload_to_dict (Payload.consensus_result p) =
    (request_id_key, Json.text p.request_id)
    ∷ (final_class_key, Json.int p.final_class)
    ∷ (confidence_key, Json.number p.confidence)
    ∷ (participating_nodes_key, Json.texts p.participating_nodes)
    ∷ []
payload_to_dict (Payload.reward p) =
    (amount_key, Json.number p.amount)
    ∷ (reason_key, Json.text p.reason)
    ∷ (request_id_key, Json.text p.request_id)
    ∷ []
payload_to_dict (Payload.slash p) =
    (amount_key, Json.number p.amount)
    ∷ (reason_key, Json.text p.reason)
    ∷ (request_id_key, Json.text p.request_id)
    ∷ []
payload_to_dict (Payload.model_challenge p) =
    (node_id_key, Json.text p.node_id)
    ∷ (challenge_indices_key, Json.ints p.challenge_indices)
    ∷ (ground_truth_key, Json.ints p.ground_truth)
    ∷ (dataset_id_key, Json.text p.dataset_id)
    ∷ []
payload_to_dict (Payload.model_verify p) =
    (node_id_key, Json.text p.node_id)
    ∷ (verified_key, Json.flag p.verified)
    ∷ (accuracy_key, Json.number p.accuracy)
    ∷ (weights_match_key, Json.flag p.weights_match)
    ∷ []
payload_to_dict (Payload.node_admitted p) =
    (node_id_key, Json.text p.node_id)
    ∷ (node_type_key, Json.text p.node_type)
    ∷ (final_accuracy_key, Json.number p.final_accuracy)
    ∷ []
payload_to_dict (Payload.node_rejected p) =
    (node_id_key, Json.text p.node_id) ∷ (reason_key, Json.text p.reason) ∷ []

-- `d.get(k, 0.0)` and `d.get(k)`
number_or_zero : ℕ → Dict Json → Result CodecError Amount
number_or_zero k d = elim (lookup k d) [ none ↦ ok (pos 0) | some v ↦ as_number v ]

-- `_payload_from_dict`
unfoldable pub payload_from_dict : TxType → Dict Json → Result CodecError Payload
unfolding number_or_zero
payload_from_dict TxType.token_transfer d = do
  amount ← at amount_key d >>= as_number
  ok (Payload.token_transfer amount)
payload_from_dict TxType.stake d = do
  amount ← at amount_key d >>= as_number
  ok (Payload.stake amount)
payload_from_dict TxType.unstake d = do
  amount ← at amount_key d >>= as_number
  ok (Payload.unstake amount)
payload_from_dict TxType.node_register d = do
  model_name ← at model_name_key d >>= as_text
  public_key ← at public_key_key d >>= as_text
  endpoint ← at endpoint_key d >>= as_text
  ok (
      Payload.node_register
        (record { model_name = model_name; public_key = public_key; endpoint = endpoint }))
payload_from_dict TxType.node_register_dnn d = do
  model_name ← at model_name_key d >>= as_text
  architecture ← at architecture_key d >>= as_blob
  weights_hash ← at weights_hash_key d >>= as_text
  endpoint ← at endpoint_key d >>= as_text
  dataset_id ← at dataset_id_key d >>= as_text
  public_key ← at public_key_key d >>= as_text
  ok (
      Payload.node_register_dnn (record {
        model_name = model_name;
        architecture = architecture;
        weights_hash = weights_hash;
        endpoint = endpoint;
        dataset_id = dataset_id;
        public_key = public_key;
      }))
payload_from_dict TxType.node_register_pos d = do
  endpoint ← at endpoint_key d >>= as_text
  public_key ← at public_key_key d >>= as_text
  ok (Payload.node_register_pos (record { endpoint = endpoint; public_key = public_key }))
payload_from_dict TxType.model_response d = do
  node_id ← at node_id_key d >>= as_text
  predictions ← at predictions_key d >>= as_ints
  ok (Payload.model_response (record { node_id = node_id; predictions = predictions }))
payload_from_dict TxType.contract_deploy d = do
  bytecode ← at bytecode_key d >>= as_text
  abi ← at abi_key d >>= as_blob
  constructor_args ← at constructor_args_key d >>= as_blob
  ok (
      Payload.contract_deploy
        (record { bytecode = bytecode; abi = abi; constructor_args = constructor_args }))
payload_from_dict TxType.contract_call d = do
  contract_address ← at contract_address_key d >>= as_text
  function ← at function_key d >>= as_text
  args ← at args_key d >>= as_blob
  value ← number_or_zero value_key d
  ok (
      Payload.contract_call (record {
        contract_address = contract_address;
        function = function;
        args = args;
        value = value;
      }))
payload_from_dict TxType.inference_request d = do
  request_id ← at request_id_key d >>= as_text
  image_hash ← at image_hash_key d >>= as_text
  model_hint ← at model_hint_key d >>= as_text
  ok (
      Payload.inference_request
        (record { request_id = request_id; image_hash = image_hash; model_hint = model_hint }))
payload_from_dict TxType.inference_response d = do
  request_id ← at request_id_key d >>= as_text
  node_id ← at node_id_key d >>= as_text
  probabilities ← at probabilities_key d >>= as_numbers
  predicted_class ← at predicted_class_key d >>= as_int
  ok (
      Payload.inference_response (record {
        request_id = request_id;
        node_id = node_id;
        probabilities = probabilities;
        predicted_class = predicted_class;
      }))
payload_from_dict TxType.consensus_result d = do
  request_id ← at request_id_key d >>= as_text
  final_class ← at final_class_key d >>= as_int
  confidence ← at confidence_key d >>= as_number
  participating_nodes ← at participating_nodes_key d >>= as_texts
  ok (
      Payload.consensus_result (record {
        request_id = request_id;
        final_class = final_class;
        confidence = confidence;
        participating_nodes = participating_nodes;
      }))
payload_from_dict TxType.reward d = do
  amount ← at amount_key d >>= as_number
  reason ← at reason_key d >>= as_text
  request_id ← at request_id_key d >>= as_text
  ok (Payload.reward (record { amount = amount; reason = reason; request_id = request_id }))
payload_from_dict TxType.slash d = do
  amount ← at amount_key d >>= as_number
  reason ← at reason_key d >>= as_text
  request_id ← at request_id_key d >>= as_text
  ok (Payload.slash (record { amount = amount; reason = reason; request_id = request_id }))
payload_from_dict TxType.model_challenge d = do
  node_id ← at node_id_key d >>= as_text
  challenge_indices ← at challenge_indices_key d >>= as_ints
  ground_truth ← at ground_truth_key d >>= as_ints
  dataset_id ← at dataset_id_key d >>= as_text
  ok (
      Payload.model_challenge (record {
        node_id = node_id;
        challenge_indices = challenge_indices;
        ground_truth = ground_truth;
        dataset_id = dataset_id;
      }))
payload_from_dict TxType.model_verify d = do
  node_id ← at node_id_key d >>= as_text
  verified ← at verified_key d >>= as_flag
  accuracy ← at accuracy_key d >>= as_number
  weights_match ← at weights_match_key d >>= as_flag
  ok (
      Payload.model_verify (record {
        node_id = node_id;
        verified = verified;
        accuracy = accuracy;
        weights_match = weights_match;
      }))
payload_from_dict TxType.node_admitted d = do
  node_id ← at node_id_key d >>= as_text
  node_type ← at node_type_key d >>= as_text
  final_accuracy ← at final_accuracy_key d >>= as_number
  ok (
      Payload.node_admitted
        (record { node_id = node_id; node_type = node_type; final_accuracy = final_accuracy }))
payload_from_dict TxType.node_rejected d = do
  node_id ← at node_id_key d >>= as_text
  reason ← at reason_key d >>= as_text
  ok (Payload.node_rejected (record { node_id = node_id; reason = reason }))
