-- ===== src/Blockchain/Codec/Keys.antt =====
-- The keys of the dicts that core/blockchain writes and reads, a number for each.
use ai_inference_chain.Prelude.{ℕ}

abbrev pub amount_key : ℕ
amount_key = 0

abbrev pub model_name_key : ℕ
model_name_key = 1

abbrev pub public_key_key : ℕ
public_key_key = 2

abbrev pub endpoint_key : ℕ
endpoint_key = 3

abbrev pub bytecode_key : ℕ
bytecode_key = 4

abbrev pub abi_key : ℕ
abi_key = 5

abbrev pub constructor_args_key : ℕ
constructor_args_key = 6

abbrev pub contract_address_key : ℕ
contract_address_key = 7

abbrev pub function_key : ℕ
function_key = 8

abbrev pub args_key : ℕ
args_key = 9

abbrev pub value_key : ℕ
value_key = 10

abbrev pub request_id_key : ℕ
request_id_key = 11

abbrev pub image_hash_key : ℕ
image_hash_key = 12

abbrev pub model_hint_key : ℕ
model_hint_key = 13

abbrev pub node_id_key : ℕ
node_id_key = 14

abbrev pub probabilities_key : ℕ
probabilities_key = 15

abbrev pub predicted_class_key : ℕ
predicted_class_key = 16

abbrev pub final_class_key : ℕ
final_class_key = 17

abbrev pub confidence_key : ℕ
confidence_key = 18

abbrev pub participating_nodes_key : ℕ
participating_nodes_key = 19

abbrev pub reason_key : ℕ
reason_key = 20

abbrev pub architecture_key : ℕ
architecture_key = 21

abbrev pub weights_hash_key : ℕ
weights_hash_key = 22

abbrev pub dataset_id_key : ℕ
dataset_id_key = 23

abbrev pub challenge_indices_key : ℕ
challenge_indices_key = 24

abbrev pub ground_truth_key : ℕ
ground_truth_key = 25

abbrev pub predictions_key : ℕ
predictions_key = 26

abbrev pub verified_key : ℕ
verified_key = 27

abbrev pub accuracy_key : ℕ
accuracy_key = 28

abbrev pub weights_match_key : ℕ
weights_match_key = 29

abbrev pub node_type_key : ℕ
node_type_key = 30

abbrev pub final_accuracy_key : ℕ
final_accuracy_key = 31

abbrev pub tx_id_key : ℕ
tx_id_key = 32

abbrev pub tx_type_key : ℕ
tx_type_key = 33

abbrev pub family_key : ℕ
family_key = 34

abbrev pub sender_key : ℕ
sender_key = 35

abbrev pub recipient_key : ℕ
recipient_key = 36

abbrev pub payload_key : ℕ
payload_key = 37

abbrev pub nonce_key : ℕ
nonce_key = 38

abbrev pub fee_key : ℕ
fee_key = 39

abbrev pub timestamp_key : ℕ
timestamp_key = 40

abbrev pub signature_key : ℕ
signature_key = 41

abbrev pub block_hash_key : ℕ
block_hash_key = 42

abbrev pub prev_hash_key : ℕ
prev_hash_key = 43

abbrev pub height_key : ℕ
height_key = 44

abbrev pub proposer_id_key : ℕ
proposer_id_key = 45

abbrev pub merkle_root_key : ℕ
merkle_root_key = 46

abbrev pub block_type_key : ℕ
block_type_key = 47

abbrev pub view_key : ℕ
view_key = 48

abbrev pub consensus_type_key : ℕ
consensus_type_key = 49

abbrev pub signatures_key : ℕ
signatures_key = 50

abbrev pub header_key : ℕ
header_key = 51

abbrev pub inference_tx_key : ℕ
inference_tx_key = 52

abbrev pub simple_txs_key : ℕ
simple_txs_key = 53

abbrev pub system_txs_key : ℕ
system_txs_key = 54

abbrev pub consensus_proof_key : ℕ
consensus_proof_key = 55
