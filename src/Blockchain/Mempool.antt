-- ===== src/Blockchain/Mempool.antt =====
-- core/blockchain/mempool.py: the pool of pending transactions. Python's `sort` is stable, as is
-- the insertion sort here.
pub mod Candidates
pub mod Selection
pub mod Limits
pub mod Removal
mod Tests
use ai_inference_chain.Prelude.{
  ℕ, ◌+◌, Bool, true, false, not, Option, none, some, List, [], ◌∷◌, ◌++◌, ltb, leb, ◌==◌,
  if◌then◌else◌, length, take, keep,
}
use ai_inference_chain.Prelude.Int.{ltb_ℤ}
use ai_inference_chain.Prelude.Dict.{Dict, lookup, get_or, contains, insert, erase, values}
use ai_inference_chain.Blockchain.Constants.{Text, mempool_max_size, max_simple_txs}
use ai_inference_chain.Blockchain.Transaction.{Transaction, is_simple, is_inference}

pub record Mempool : Type 0 where
  pub max_size : ℕ
  pub pending : Dict Transaction
  pub by_sender : Dict (List Transaction)
  pub inference_queue : List Transaction

-- `Mempool()`, and `Mempool(max_size)`
unfoldable pub new_mempool : ℕ → Mempool
new_mempool n = record { max_size = n; pending = []; by_sender = []; inference_queue = [] }

abbrev pub default_mempool : Mempool
default_mempool = new_mempool mempool_max_size

-- Stable sorting: `x` goes behind the elements that precede it strictly.
module _ {ℓ} {A : Type ℓ} (precedes : A → A → Bool) where
  unfoldable pub insert_sorted : A → List A → List A
  insert_sorted x [] = x ∷ []
  insert_sorted x (y ∷ ys) = if precedes y x then y ∷ insert_sorted x ys else x ∷ y ∷ ys

  unfoldable pub sort : List A → List A
  sort [] = []
  sort (x ∷ xs) = insert_sorted x (sort xs)

abbrev pub lower_nonce : Transaction → Transaction → Bool
lower_nonce a b = ltb a.nonce b.nonce

abbrev pub higher_fee : Transaction → Transaction → Bool
higher_fee a b = ltb_ℤ b.fee a.fee

unfoldable pub add : Transaction → Mempool → Bool × Mempool
add tx m =
    if contains tx.tx_id m.pending
    then (false, m)
    else (if is_inference tx
        then (
          true,
          record m {
            inference_queue = m.inference_queue ++ tx ∷ [];
            pending = insert tx.tx_id tx m.pending;
          },
        )
        else (if leb m.max_size (length m.pending) then (false, m) else (
          true,
          record m {
            pending = insert tx.tx_id tx m.pending;
            by_sender =
                insert tx.sender (sort lower_nonce (get_or tx.sender m.by_sender [] ++ tx ∷ []))
                  m.by_sender;
          },
        )))

-- The first transaction of a sender with the nonce.
unfoldable pub with_nonce : ℕ → List Transaction → List Transaction
with_nonce n [] = []
with_nonce n (tx ∷ txs) = if tx.nonce == n then tx ∷ [] else with_nonce n txs

unfoldable pub candidates : Dict ℕ → Dict (List Transaction) → List Transaction
candidates nonces [] = []
candidates nonces ((a, txs) ∷ d) = with_nonce (get_or a nonces 0 + 1) txs ++ candidates nonces d

unfoldable pub select_simple : Dict ℕ → ℕ → Mempool → List Transaction
select_simple nonces n m = take n (sort higher_fee (candidates nonces m.by_sender))

-- `select_simple(account_nonces)`
abbrev pub select_default : Dict ℕ → Mempool → List Transaction
select_default nonces m = select_simple nonces max_simple_txs m

unfoldable pub next_inference : Mempool → Option Transaction × Mempool
next_inference m = elim m.inference_queue [
  | [] ↦ (none, m)
  | tx ∷ txs ↦ (some tx, record m { inference_queue = txs; pending = erase tx.tx_id m.pending })
]

unfoldable pub peek_inference : Mempool → Option Transaction
peek_inference m = elim m.inference_queue [ [] ↦ none | tx ∷ txs ↦ some tx ]

-- The body of the loop of `remove`.
unfoldable pub remove_one : Text → Mempool → Mempool
remove_one k m = elim (lookup k m.pending) [
  | none ↦ m
  | some tx ↦
      let m' : Mempool = record m { pending = erase k m.pending } in
      if is_simple tx
      then record m' {
        by_sender =
            insert tx.sender (keep (λ t. not (t.tx_id == k)) (get_or tx.sender m.by_sender []))
              m.by_sender;
      }
      else m'
]

unfoldable pub remove : List Text → Mempool → Mempool
remove [] m = m
remove (k ∷ ks) m = remove ks (remove_one k m)

-- `_pending.pop(tx.tx_id, None)` for each transaction
unfoldable pub erase_all : List Transaction → Dict Transaction → Dict Transaction
erase_all [] d = d
erase_all (tx ∷ txs) d = erase_all txs (erase tx.tx_id d)

unfoldable pub clear_sender : Text → ℕ → Mempool → Mempool
clear_sender a n m =
    let txs : List Transaction = get_or a m.by_sender [] in
    record m {
      by_sender = insert a (keep (λ tx. ltb n tx.nonce) txs) m.by_sender;
      pending = erase_all (keep (λ tx. leb tx.nonce n) txs) m.pending;
    }

pub size : Mempool → ℕ
size m = length m.pending

pub inference_pending : Mempool → ℕ
inference_pending m = length m.inference_queue

pub has_tx : Text → Mempool → Bool
has_tx k m = contains k m.pending

pub get_tx : Text → Mempool → Option Transaction
get_tx k m = lookup k m.pending

pub all_pending : Mempool → List Transaction
all_pending m = values m.pending

unfoldable pub pending_for_sender : Text → Mempool → List Transaction
pending_for_sender a m = get_or a m.by_sender []

-- The calls that the node makes to its pool, for sequences of them.
pub data PoolCall : Type 0 where
  adds : Transaction → PoolCall
  pops : PoolCall
  removes : List Text → PoolCall
  clears : Text → ℕ → PoolCall

unfoldable pub pool_step : PoolCall → Mempool → Mempool
pool_step (adds tx) m = (add tx m).1
pool_step pops m = (next_inference m).1
pool_step (removes ks) m = remove ks m
pool_step (clears a n) m = clear_sender a n m

unfoldable pub pool_run : List PoolCall → Mempool → Mempool
pool_run [] m = m
pool_run (c ∷ cs) m = pool_run cs (pool_step c m)
