-- ===== src/Blockchain/Mempool/Limits.antt =====
-- What holds of a pool of core/blockchain/mempool.py after any calls.
use ai_inference_chain.Prelude.{
  ℕ, ◌+◌, ◌≤◌, ◌≡◌, refl, inl, inr, Bool, false, not, Bool-cases, Option-cases, List-cases, subst,
  List, [], ◌∷◌, ◌++◌, ltb, leb, ◌==◌, if◌then◌else◌, length, keep, All, All-append, arith,
}
use ai_inference_chain.Prelude.Dict.{
  keys, IsDistinct, insert-IsDistinct, Dict, lookup, get_or, contains, insert, erase,
}
use ai_inference_chain.Blockchain.Constants.{Text}
use ai_inference_chain.Blockchain.Transaction.{Transaction, is_inference}
use ai_inference_chain.Blockchain.Mempool.{
  Mempool, PoolCall, adds, pops, removes, clears, pool_step, pool_run, new_mempool, add,
  next_inference, remove, remove_one, erase_all, clear_sender, sort, lower_nonce, candidates,
  select_simple,
}
use ai_inference_chain.Blockchain.Mempool.Candidates.{
  candidates-IsFiled, candidates-IsDistinct, IsFiled, senders, Filed, IsNext, Covers,
  candidates-IsNext, candidates-Covers,
}
use ai_inference_chain.Blockchain.Mempool.Selection.{IsBest, All-sort, select_simple-IsBest}

-- The pending transactions that are no inference requests.
abbrev pub others : Dict Transaction → ℕ
others [] = 0
others ((k, tx) ∷ d) = (if is_inference tx then 0 else 1) + others d

others-le-length : (d : Dict Transaction) → others d ≤ length d
others-le-length [] = omega arith
others-le-length ((k, tx) ∷ d) = ground (arith, others-le-length d)

others-insert :
    (k : Text) (tx : Transaction) (d : Dict Transaction)
    → contains k d ≡ false
    → others (insert k tx d) ≡ (if is_inference tx then 0 else 1) + others d
others-insert k tx [] e = refl
others-insert k tx ((j, t) ∷ d) e = ground (arith, e, others-insert k tx d)

others-erase : (k : Text) (d : Dict Transaction) → others (erase k d) ≤ others d
others-erase k [] = omega arith
others-erase k ((j, t) ∷ d) = ground (arith, others-erase k d)

others-erase_all :
    (txs : List Transaction) (d : Dict Transaction) → others (erase_all txs d) ≤ others d
unfolding erase_all
others-erase_all [] d = omega arith
others-erase_all (tx ∷ txs) d =
    omega (arith, others-erase_all txs (erase tx.tx_id d), others-erase tx.tx_id d)

All-keep {ℓ κ} :
    {A : Type ℓ} (P : A → Type κ) (p : A → Bool) (xs : List A) → All P xs → All P (keep p xs)
All-keep P p [] h = tt
All-keep P p (x ∷ xs) h = elim (Bool-cases (p x)) [
  | inl e ↦ rw e (h.0, All-keep P p xs h.1)
  | inr e ↦ rw e (All-keep P p xs h.1)
]

abbrev Of : Text → List Transaction → Type 0
Of a txs = All (λ tx. tx.sender ≡ a) txs

get_or-Of : (a : Text) (d : Dict (List Transaction)) → Filed d → Of a (get_or a d [])
get_or-Of a [] h = tt
get_or-Of a ((b, txs) ∷ d) h = elim (Bool-cases (a == b)) [
  | inl e ↦ rw (e, get_or) (subst (λ x. Of x txs) (ground (arith, e)) h.0)
  | inr e ↦ rw (e, get_or) (get_or-Of a d h.1)
]

insert-Filed :
    (a : Text) (txs : List Transaction) (d : Dict (List Transaction))
    → Of a txs
    → Filed d
    → Filed (insert a txs d)
insert-Filed a txs [] o h = (o, tt)
insert-Filed a txs ((b, us) ∷ d) o h = elim (Bool-cases (a == b)) [
  | inl e ↦ rw e (subst (λ x. Of x txs) (ground (arith, e)) o, h.1)
  | inr e ↦ rw e (h.0, insert-Filed a txs d o h.1)
]

-- At most `n` pending transactions that are no inference requests, and each filed, once for a sender.
pub record Inv (n : ℕ) (m : Mempool) : Type 0 where
  pub same_max : m.max_size ≡ n
  pub bounded : others m.pending ≤ n
  pub filed : Filed m.by_sender
  pub keyed : IsDistinct (keys m.by_sender)

add-Inv : (n : ℕ) (tx : Transaction) (m : Mempool) → Inv n m → Inv n (add tx m).1
unfolding add
add-Inv n tx m i =
    let txs : List Transaction = get_or tx.sender m.by_sender [] ++ tx ∷ [] in
    let of_sender : Of tx.sender (sort lower_nonce txs) =
      All-sort (λ t. t.sender ≡ tx.sender) lower_nonce txs
        (All-append (λ (t : Transaction). t.sender ≡ tx.sender) (get_or tx.sender m.by_sender [])
          (tx ∷ []) (get_or-Of tx.sender m.by_sender i.filed) (refl, tt)) in
    ground (
      arith,
      i,
      others-insert tx.tx_id tx m.pending,
      others-le-length m.pending,
      insert-Filed tx.sender (sort lower_nonce txs) m.by_sender of_sender i.filed,
      insert-IsDistinct tx.sender (sort lower_nonce txs) m.by_sender i.keyed,
    )

next_inference-Inv : (n : ℕ) (m : Mempool) → Inv n m → Inv n (next_inference m).1
unfolding next_inference
next_inference-Inv n m i = elim (List-cases m.inference_queue) [
  | inl e ↦ ground (arith, e, i)
  | inr (tx, txs, e) ↦ ground (arith, e, i, others-erase tx.tx_id m.pending)
]

remove_one-Inv : (n : ℕ) (k : Text) (m : Mempool) → Inv n m → Inv n (remove_one k m)
unfolding remove_one
remove_one-Inv n k m i = elim (Option-cases (lookup k m.pending)) [
  | inl e ↦ ground (arith, e, i)
  | inr (tx, e) ↦
      let kept : List Transaction =
        keep (λ (t : Transaction). not (t.tx_id == k)) (get_or tx.sender m.by_sender []) in
      let of_sender : Of tx.sender kept =
        All-keep (λ t. t.sender ≡ tx.sender) (λ t. not (t.tx_id == k))
          (get_or tx.sender m.by_sender []) (get_or-Of tx.sender m.by_sender i.filed) in
      ground (
        arith,
        e,
        i,
        others-erase k m.pending,
        insert-Filed tx.sender kept m.by_sender of_sender i.filed,
        insert-IsDistinct tx.sender kept m.by_sender i.keyed,
      )
]

remove-Inv : (n : ℕ) (ks : List Text) (m : Mempool) → Inv n m → Inv n (remove ks m)
unfolding remove
remove-Inv n [] m i = i
remove-Inv n (k ∷ ks) m i = remove-Inv n ks (remove_one k m) (remove_one-Inv n k m i)

clear_sender-Inv : (n : ℕ) (a : Text) (k : ℕ) (m : Mempool) → Inv n m → Inv n (clear_sender a k m)
unfolding clear_sender
clear_sender-Inv n a k m i =
    let txs : List Transaction = get_or a m.by_sender [] in
    record {
      same_max = i.same_max;
      bounded =
          omega (arith, i.bounded, others-erase_all (keep (λ tx. leb tx.nonce k) txs) m.pending);
      filed =
          insert-Filed a (keep (λ tx. ltb k tx.nonce) txs) m.by_sender
            (All-keep (λ tx. tx.sender ≡ a) (λ tx. ltb k tx.nonce) txs
              (get_or-Of a m.by_sender i.filed))
            i.filed;
      keyed = insert-IsDistinct a (keep (λ tx. ltb k tx.nonce) txs) m.by_sender i.keyed;
    }

pool_run-Inv : (n : ℕ) (cs : List PoolCall) (m : Mempool) → Inv n m → Inv n (pool_run cs m)
unfolding pool_run pool_step
pool_run-Inv n [] m i = i
pool_run-Inv n (adds tx ∷ cs) m i = pool_run-Inv n cs (add tx m).1 (add-Inv n tx m i)
pool_run-Inv n (pops ∷ cs) m i = pool_run-Inv n cs (next_inference m).1 (next_inference-Inv n m i)
pool_run-Inv n (removes ks ∷ cs) m i = pool_run-Inv n cs (remove ks m) (remove-Inv n ks m i)
pool_run-Inv n (clears a k ∷ cs) m i =
    pool_run-Inv n cs (clear_sender a k m) (clear_sender-Inv n a k m i)

new_mempool-Inv : (n : ℕ) → Inv n (new_mempool n)
unfolding new_mempool
new_mempool-Inv n = record { same_max = refl; bounded = omega arith; filed = tt; keyed = tt }

-- Whatever is done to a new pool, at most `max_size` of its pending transactions are no inference
-- requests. Inference requests are not counted: `add` takes them into a full pool.
pub pool_run-bounded :
    (n : ℕ) (cs : List PoolCall) → others (pool_run cs (new_mempool n)).pending ≤ n
pool_run-bounded n cs = (pool_run-Inv n cs (new_mempool n) (new_mempool-Inv n)).bounded

-- Whatever has been done to a new pool, a selection from it takes the best of the candidates by
-- their fees: with the candidates that are left it is a permutation of them from the highest fee
-- down, it has at most the number asked for, and candidates are left only when it has that number.
-- Each candidate is on file and the next transaction of its sender by the nonces given, no two have
-- one sender, and every sender that has its next transaction on file has a candidate.
pub select_simple-run :
    (n k : ℕ) (nonces : Dict ℕ) (cs : List PoolCall)
    → let m = pool_run cs (new_mempool n) in
      let all = candidates nonces m.by_sender in
      IsBest k (select_simple nonces k m) all
      × All (IsFiled m.by_sender) all
      × All (IsNext nonces) all
      × IsDistinct (senders all)
      × Covers nonces m.by_sender all
select_simple-run n k nonces cs =
    let m = pool_run cs (new_mempool n) in
    let i : Inv n m = pool_run-Inv n cs (new_mempool n) (new_mempool-Inv n) in
    (
      select_simple-IsBest nonces k m,
      candidates-IsFiled nonces m.by_sender,
      candidates-IsNext nonces m.by_sender i.filed,
      candidates-IsDistinct nonces m.by_sender i.filed i.keyed,
      candidates-Covers nonces m.by_sender i.filed,
    )
