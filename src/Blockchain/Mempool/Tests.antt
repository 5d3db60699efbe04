-- ===== src/Blockchain/Mempool/Tests.antt =====
-- The theorems on the pool at concrete inputs.
use ai_inference_chain.Prelude.{ℕ, ◌≤◌, List, [], ◌∷◌, All}
use ai_inference_chain.Prelude.Int.{pos}
use ai_inference_chain.Prelude.Dict.{IsDistinct}
use ai_inference_chain.Blockchain.Constants.{Text, no_text}
use ai_inference_chain.Blockchain.Transaction.{Transaction, Payload, Signature}
use ai_inference_chain.Blockchain.Mempool.{
  Mempool, PoolCall, adds, pops, removes, clears, pool_run, new_mempool, candidates, select_simple,
}
use ai_inference_chain.Blockchain.Mempool.Candidates.{IsFiled, senders, IsNext, Covers}
use ai_inference_chain.Blockchain.Mempool.Selection.{IsBest}
use ai_inference_chain.Blockchain.Mempool.Limits.{others, pool_run-bounded, select_simple-run}

abbrev plain_tx : Payload → Text → ℕ → ℕ → Text → Transaction
plain_tx p sender n fee k = record {
  sender = sender;
  payload = p;
  nonce = n;
  fee = pos fee;
  recipient = 4;
  timestamp = 0;
  signature = Signature.missing;
  public_key = no_text;
  tx_id = k;
}

abbrev transfer : Text → ℕ → ℕ → Text → Transaction
transfer = plain_tx (Payload.token_transfer (pos 5))

abbrev request : Text → Transaction
request =
    plain_tx (Payload.inference_request (record { request_id = 8; image_hash = 9; model_hint = 1 }))
      3 1 0

abbrev reward : Text → Transaction
reward = plain_tx (Payload.reward (record { amount = pos 7; reason = 1; request_id = 8 })) 9 1 0

abbrev calls : List PoolCall
calls =
    adds (transfer 3 2 1 31)
    ∷ adds (transfer 3 1 1 30)
    ∷ adds (request 40)
    ∷ adds (transfer 5 1 9 32)
    ∷ pops
    ∷ removes (32 ∷ [])
    ∷ clears 5 1
    ∷ []

pool_run-bounded_example : others (pool_run calls (new_mempool 2)).pending ≤ 2
pool_run-bounded_example = pool_run-bounded 2 calls

select_simple-run_example :
    let m = pool_run calls (new_mempool 2) in
    let all = candidates ((3, 0) ∷ []) m.by_sender in
    IsBest 50 (select_simple ((3, 0) ∷ []) 50 m) all
    × All (IsFiled m.by_sender) all
    × All (IsNext ((3, 0) ∷ [])) all
    × IsDistinct (senders all)
    × Covers ((3, 0) ∷ []) m.by_sender all
select_simple-run_example = select_simple-run 2 50 ((3, 0) ∷ []) calls

-- A pool with a transfer and a reward.
abbrev pool : Mempool
pool = record {
  max_size = 9;
  pending = (30, transfer 3 1 1 30) ∷ (50, reward 50) ∷ [];
  by_sender = (3, transfer 3 1 1 30 ∷ []) ∷ (9, reward 50 ∷ []) ∷ [];
  inference_queue = [];
}
