-- ===== src/Qoi/SystemTxs/Roles.antt =====
-- What the transactions of `build_system_txs` of core/qoi/state_machine.py do to the ledger.
use ai_inference_chain.Prelude.{ℕ, ◌+◌, ◌≡◌, refl, List, [], ◌∷◌, ◌++◌, map, keep, All, All-append}
use ai_inference_chain.Prelude.Int.{pos, ◌+ℤ◌, int_laws, parts_of_eq}
use ai_inference_chain.Prelude.Dict.{sum_values, sum_values-insert}
use ai_inference_chain.Blockchain.Constants.{Text, Amount}
use ai_inference_chain.Blockchain.Transaction.{Transaction, Payload}
use ai_inference_chain.Blockchain.Block.{Hashes}
use ai_inference_chain.Blockchain.Chain.State.{ChainState, balance_of}
use ai_inference_chain.Blockchain.Chain.Apply.{
  credit, set_stake, deactivate, pay_fee, apply_payload, apply_tx, apply_txs, apply_slash,
}
use ai_inference_chain.Qoi.Quality.{Floats, NodeQoiResult, honest_nodes, byzantine_nodes}
use ai_inference_chain.Qoi.Machine.{ConsensusOutcome}
use ai_inference_chain.Qoi.SystemTxs.{
  Ids, Draft, new_transaction, number_drafts, drafts, build_system_txs, response_draft,
  result_draft, reward_draft, slash_draft, is_rewarded,
}

-- All free tokens.
abbrev pub free_tokens : ChainState → Amount
free_tokens s = sum_values s.balances

-- What a payload mints.
abbrev minted : Payload → Amount
minted (Payload.reward p) = p.amount
minted _ = pos 0

abbrev IsRole : Payload → Type 0
IsRole (Payload.inference_response p) = Unit {0}
IsRole (Payload.consensus_result p) = Unit {0}
IsRole (Payload.reward p) = Unit {0}
IsRole (Payload.slash p) = Unit {0}
IsRole _ = ⊥

free_tokens-credit :
    (a : Text) (x : Amount) (s : ChainState) → free_tokens (credit a x s) ≡ free_tokens s +ℤ x
unfolding credit
free_tokens-credit a x s =
    omega (int_laws, parts_of_eq (sum_values-insert a (balance_of s a +ℤ x) s.balances))

free_tokens-apply_tx :
    (h : Hashes) (n nonce now : ℕ) (proposer : Text) (id_of : Ids) (sender recipient : Text)
    (p : Payload) (s : ChainState)
    → IsRole p
    → free_tokens (apply_tx h n proposer (new_transaction id_of now sender recipient p nonce) s)
      ≡ free_tokens s +ℤ minted p
unfolding apply_tx apply_payload pay_fee apply_slash set_stake deactivate
free_tokens-apply_tx h n nonce now proposer id_of sender recipient (Payload.inference_response p) s
      r =
    omega int_laws
free_tokens-apply_tx h n nonce now proposer id_of sender recipient (Payload.consensus_result p) s
      r =
    omega int_laws
free_tokens-apply_tx h n nonce now proposer id_of sender recipient (Payload.reward p) s r =
    free_tokens-credit recipient p.amount s
free_tokens-apply_tx h n nonce now proposer id_of sender recipient (Payload.slash p) s r =
    grind int_laws
free_tokens-apply_tx h n nonce now proposer id_of sender recipient _ s r = absurd r

abbrev minted_by : List Draft → Amount
minted_by [] = pos 0
minted_by (d ∷ ds) = minted d.payload +ℤ minted_by ds

free_tokens-apply_txs :
    (h : Hashes) (n nonce : ℕ) (proposer : Text) (id_of : Ids) (clock : ℕ → ℕ) (ds : List Draft)
    (s : ChainState)
    → All (λ d. IsRole d.payload) ds
    → free_tokens (apply_txs h n proposer (number_drafts id_of clock nonce ds) s)
      ≡ free_tokens s +ℤ minted_by ds
unfolding apply_txs number_drafts
free_tokens-apply_txs h n nonce proposer id_of clock [] s r = omega int_laws
free_tokens-apply_txs h n nonce proposer id_of clock (d ∷ ds) s r =
    let tx : Transaction =
      new_transaction id_of (clock nonce) d.sender d.recipient d.payload nonce in
    rw
      (
        free_tokens-apply_txs h n (nonce + 1) proposer id_of clock ds (apply_tx h n proposer tx s)
            r.1,
        free_tokens-apply_tx h n nonce (clock nonce) proposer id_of d.sender d.recipient d.payload s
            r.0,
      )
      (omega int_laws)

minted_by-append : (ds es : List Draft) → minted_by (ds ++ es) ≡ minted_by ds +ℤ minted_by es
minted_by-append [] es = omega int_laws
minted_by-append (d ∷ ds) es = rw (minted_by-append ds es) (omega int_laws)

module _ (fl : Floats) (amount_of : fl.Float → Amount) where
  -- The sum of the rewards.
  abbrev pub total_reward : List (NodeQoiResult fl) → Amount
  total_reward [] = pos 0
  total_reward (r ∷ rs) = amount_of r.token_reward +ℤ total_reward rs

  minted_by-responses :
      (request : Text) (rs : List (NodeQoiResult fl))
      → minted_by (map (response_draft fl amount_of request) rs) ≡ pos 0
  minted_by-responses request [] = refl
  minted_by-responses request (r ∷ rs) = rw (minted_by-responses request rs) (omega int_laws)

  minted_by-rewards :
      (request : Text) (rs : List (NodeQoiResult fl))
      → minted_by (map (reward_draft fl amount_of request) rs) ≡ total_reward rs
  minted_by-rewards request [] = refl
  minted_by-rewards request (r ∷ rs) = rw (minted_by-rewards request rs) refl

  minted_by-slashes :
      (request : Text) (rs : List (NodeQoiResult fl))
      → minted_by (map (slash_draft fl amount_of request) rs) ≡ pos 0
  minted_by-slashes request [] = refl
  minted_by-slashes request (r ∷ rs) = rw (minted_by-slashes request rs) (omega int_laws)

  All-drafts :
      (f : NodeQoiResult fl → Draft) (rs : List (NodeQoiResult fl))
      → ((r : NodeQoiResult fl) → IsRole (f r).payload)
      → All (λ d. IsRole d.payload) (map f rs)
  All-drafts f [] k = tt
  All-drafts f (r ∷ rs) k = (k r, All-drafts f rs k)

  drafts-IsRole : (o : ConsensusOutcome fl) → All (λ d. IsRole d.payload) (drafts fl amount_of o)
  unfolding drafts
  drafts-IsRole o =
      let request : Text = o.request_id in
      let results : List (NodeQoiResult fl) = o.round_result.node_results in
      let paid : List (NodeQoiResult fl) =
        keep (is_rewarded fl amount_of) (honest_nodes fl o.round_result) in
      let slashed : List (NodeQoiResult fl) = byzantine_nodes fl o.round_result in
      let role = λ (d : Draft). IsRole d.payload in
      All-append role (map (response_draft fl amount_of request) results)
        (result_draft fl amount_of o
          ∷ (map (reward_draft fl amount_of request) paid
              ++ map (slash_draft fl amount_of request) slashed))
        (All-drafts (response_draft fl amount_of request) results (λ r. tt))
        (
          tt,
          All-append role (map (reward_draft fl amount_of request) paid)
              (map (slash_draft fl amount_of request) slashed)
              (All-drafts (reward_draft fl amount_of request) paid (λ r. tt))
              (All-drafts (slash_draft fl amount_of request) slashed (λ r. tt)),
        )

  minted_by-drafts :
      (o : ConsensusOutcome fl)
      → minted_by (drafts fl amount_of o)
        ≡ total_reward (keep (is_rewarded fl amount_of) (honest_nodes fl o.round_result))
  unfolding drafts
  minted_by-drafts o =
      rw
        (
          minted_by-append,
          minted_by-append,
          minted_by-responses o.request_id o.round_result.node_results,
          minted_by-rewards o.request_id
              (keep (is_rewarded fl amount_of) (honest_nodes fl o.round_result)),
          minted_by-slashes o.request_id (byzantine_nodes fl o.round_result),
        )
        (omega int_laws)

  -- The system transactions of a round mint exactly the rewards of its honest nodes that are above
  -- zero: applied to any state, in whatever block, they raise the sum of all balances by the sum of
  -- those rewards and by nothing else. A slash takes from stakes only.
  pub build_system_txs-mint :
      (h : Hashes) (height : ℕ) (proposer : Text) (id_of : Ids) (clock : ℕ → ℕ)
      (o : ConsensusOutcome fl) (s : ChainState)
      → free_tokens (apply_txs h height proposer (build_system_txs fl amount_of id_of clock o) s)
        ≡ free_tokens s
          +ℤ total_reward (keep (is_rewarded fl amount_of) (honest_nodes fl o.round_result))
  unfolding build_system_txs
  build_system_txs-mint h height proposer id_of clock o s =
      rw
        (
          free_tokens-apply_txs h height 1 proposer id_of clock (drafts fl amount_of o) s
              (drafts-IsRole o),
          minted_by-drafts o,
        )
        refl
