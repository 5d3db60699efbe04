-- ===== src/Qoi/SystemTxs.antt =====
-- `ConsensusOutcome.build_system_txs` of core/qoi/state_machine.py. The ledger counts thousandths
-- and the scores are floats: `amount_of` is the reading of a float as an amount. A transaction's id
-- is the hash of its other fields, and the clock is read for each of them.
pub mod Roles
use ai_inference_chain.Prelude.{
  ℕ, suc, ◌+◌, Bool, true, false, List, [], ◌∷◌, ◌++◌, map, keep, if◌then◌else◌,
}
use ai_inference_chain.Prelude.Int.{pos}
use ai_inference_chain.Blockchain.Constants.{Text, Amount, no_text, slash_penalty}
use ai_inference_chain.Blockchain.Transaction.{
  Transaction, Payload, Signature, InferenceResponsePayload, ConsensusResultPayload, RewardPayload,
  SlashPayload,
}
use ai_inference_chain.Qoi.Quality.{
  Floats, NodeQoiResult, RoundResult, honest_nodes, byzantine_nodes, zero_float,
}
use ai_inference_chain.Qoi.Machine.{ConsensusOutcome}

-- `Transaction._compute_id`, of a transaction whose id is not set.
abbrev pub Ids : Type 0
Ids = Transaction → Text

-- `Transaction(…)` with the arguments that this code passes.
abbrev pub new_transaction : Ids → ℕ → Text → Text → Payload → ℕ → Transaction
new_transaction id_of now sender recipient payload nonce =
    let tx : Transaction = record {
      sender = sender;
      payload = payload;
      nonce = nonce;
      fee = pos 0;
      recipient = recipient;
      timestamp = now;
      signature = Signature.missing;
      public_key = no_text;
      tx_id = no_text;
    } in
    record tx { tx_id = id_of tx }

-- "0" * 40, and the texts of the reasons
abbrev pub zero_address : Text
zero_address = 3

abbrev pub honest_reason : Text
honest_reason = 4

abbrev pub byzantine_reason : Text
byzantine_reason = 5

-- The arguments of a transaction but its nonce.
pub record Draft : Type 0 where
  pub sender : Text
  pub recipient : Text
  pub payload : Payload

-- `nonce_counter`, from `n` on; `clock n` is the time at which the nonce n is given.
unfoldable pub number_drafts : Ids → (ℕ → ℕ) → ℕ → List Draft → List Transaction
number_drafts id_of clock n [] = []
number_drafts id_of clock n (d ∷ ds) =
    new_transaction id_of (clock n) d.sender d.recipient d.payload n
    ∷ number_drafts id_of clock (n + 1) ds

module _ (fl : Floats) (amount_of : fl.Float → Amount) where
  open fl use {Float, lt}

  abbrev pub response_draft : Text → NodeQoiResult fl → Draft
  response_draft request r = record {
    sender = r.node_id;
    recipient = no_text;
    payload = Payload.inference_response (record {
      request_id = request;
      node_id = r.node_id;
      probabilities = map amount_of r.probabilities;
      predicted_class = pos r.predicted_class;
    });
  }

  -- `max((nr.qoi_score …), default=0.0)`
  abbrev pub max_score : Float → List (NodeQoiResult fl) → Float
  max_score x [] = x
  max_score x (r ∷ rs) = max_score (if lt x r.qoi_score then r.qoi_score else x) rs

  abbrev pub confidence_of : List (NodeQoiResult fl) → Float
  confidence_of [] = zero_float fl
  confidence_of (r ∷ rs) = max_score r.qoi_score rs

  abbrev pub result_draft : ConsensusOutcome fl → Draft
  result_draft o = record {
    sender = zero_address;
    recipient = no_text;
    payload = Payload.consensus_result (record {
      request_id = o.request_id;
      final_class = pos o.consensus_class;
      confidence = amount_of (confidence_of (honest_nodes fl o.round_result));
      participating_nodes = map (λ r. r.node_id) o.round_result.node_results;
    });
  }

  abbrev pub reward_draft : Text → NodeQoiResult fl → Draft
  reward_draft request r = record {
    sender = zero_address;
    recipient = r.node_id;
    payload = Payload.reward (record {
      amount = amount_of r.token_reward;
      reason = honest_reason;
      request_id = request;
    });
  }

  abbrev pub slash_draft : Text → NodeQoiResult fl → Draft
  slash_draft request r = record {
    sender = r.node_id;
    recipient = no_text;
    payload =
        Payload.slash
          (record { amount = slash_penalty; reason = byzantine_reason; request_id = request });
  }

  -- `nr.token_reward > 0`
  abbrev pub is_rewarded : NodeQoiResult fl → Bool
  is_rewarded r = lt (zero_float fl) r.token_reward

  -- The transactions in the order of the code: responses, result, rewards, slashes.
  unfoldable pub drafts : ConsensusOutcome fl → List Draft
  drafts o =
      map (response_draft o.request_id) o.round_result.node_results
      ++ (result_draft o
          ∷ (map (reward_draft o.request_id) (keep is_rewarded (honest_nodes fl o.round_result))
              ++ map (slash_draft o.request_id) (byzantine_nodes fl o.round_result)))

  unfoldable pub build_system_txs : Ids → (ℕ → ℕ) → ConsensusOutcome fl → List Transaction
  unfolding number_drafts drafts
  build_system_txs id_of clock o = number_drafts id_of clock 1 (drafts o)
