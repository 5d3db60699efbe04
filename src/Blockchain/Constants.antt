-- ===== src/Blockchain/Constants.antt =====
-- core/blockchain/constants.py. Python strings are only compared and stored, so a `str | None` is
-- a number: 0 stands for None, 1 for the empty string, and any other number for a text of its own.
-- Token amounts, reputations and accuracies are exact integers, in thousandths.
use ai_inference_chain.Prelude.{ℕ, ◌*◌, Bool}
use ai_inference_chain.Prelude.{ltb}
use ai_inference_chain.Prelude.Int.{ℤ, pos}

abbrev pub Text : Type 0
Text = ℕ

abbrev pub no_text : Text
no_text = 0

abbrev pub empty_text : Text
empty_text = 1

-- `if s:` for a string or None
abbrev pub is_truthy : Text → Bool
is_truthy s = ltb 1 s

-- A JSON value that the code stores and never looks into; 0 is the empty dict.
abbrev pub Blob : Type 0
Blob = ℕ

-- Thousandths of a token, of a reputation point, of an accuracy.
abbrev pub Amount : Type 0
Amount = ℤ

abbrev pub thousands : ℕ → Amount
thousands n = pos (n * 1000)

abbrev pub min_stake : Amount
min_stake = thousands 1000

abbrev pub min_stake_dnn : Amount
min_stake_dnn = thousands 1000

abbrev pub min_stake_pos : Amount
min_stake_pos = thousands 500

abbrev pub slash_penalty : Amount
slash_penalty = thousands 100

abbrev pub initial_reputation : Amount
initial_reputation = pos 0

-- 0.3
abbrev pub rep_penalty : Amount
rep_penalty = pos 300

abbrev pub max_simple_txs : ℕ
max_simple_txs = 50

abbrev pub mempool_max_size : ℕ
mempool_max_size = 10000

-- seconds
abbrev pub view_change_timeout : ℕ
view_change_timeout = 10

-- max opcodes per contract call
abbrev pub contract_gas_limit : ℕ
contract_gas_limit = 1000000

-- `NODE_TYPE_DNN`, `NODE_TYPE_POS`
pub data NodeType : Type 0 where
  dnn pos_only : NodeType
