-- ===== src/Blockchain/Mempool/Removal.antt =====
-- What `remove` of core/blockchain/mempool.py leaves in the pool.
use ai_inference_chain.Prelude.{◌≡◌, refl, true, false, some, [], ◌∷◌, arith}
use ai_inference_chain.Prelude.Dict.{lookup, contains, erase, lookup-insert}
use ai_inference_chain.Blockchain.Constants.{Text}
use ai_inference_chain.Blockchain.Transaction.{
  Transaction, TxFamily, family, is_inference, is_simple, is_inference_family, is_simple_family,
}
use ai_inference_chain.Blockchain.Mempool.{
  Mempool, add, remove, remove_one, next_inference, pending_for_sender,
}

-- Removing a pending transaction that is not of the simple family leaves every sender's list as it
-- was: one of the system family, which `add` files under its sender, stays there and can be
-- selected again.
remove-system_stays :
    (k a : Text) (tx : Transaction) (m : Mempool)
    → lookup k m.pending ≡ some tx
    → is_simple tx ≡ false
    → let m' = remove (k ∷ []) m in
      (m'.pending ≡ erase k m.pending) × (pending_for_sender a m' ≡ pending_for_sender a m)
unfolding remove remove_one pending_for_sender
remove-system_stays k a tx m e s = (ground (arith, e, s), ground (arith, e, s))

inference_not_simple : (f : TxFamily) → is_inference_family f ≡ true → is_simple_family f ≡ false
inference_not_simple TxFamily.simple e = cc
inference_not_simple TxFamily.inference e = refl
inference_not_simple TxFamily.system e = refl

-- An inference request that is added to a pool without one and then removed is still the next
-- request that the pool gives out. Condition: its id is not pending before.
remove-request_stays :
    (tx : Transaction) (m : Mempool)
    → is_inference tx ≡ true
    → contains tx.tx_id m.pending ≡ false
    → m.inference_queue ≡ []
    → (next_inference (remove (tx.tx_id ∷ []) (add tx m).1)).0 ≡ some tx
unfolding next_inference remove remove_one add
remove-request_stays tx m i c q = ground (
  arith,
  i,
  inference_not_simple (family tx) i,
  c,
  q,
  lookup-insert tx.tx_id tx.tx_id tx m.pending,
)
