-- ===== src/Blockchain/Mempool/Candidates.antt =====
-- The transactions from which `select_simple` of core/blockchain/mempool.py selects.
use ai_inference_chain.Prelude.{
  ℕ, ◌+◌, ◌≡◌, sym, subst, ◌∙◌, ◌⊎◌, inl, inr, Bool, true, false, ◌||◌, Bool-cases, List, [], ◌∷◌,
  ◌++◌, ◌==◌, All, All-append, All-map, map, ◌≢◌, arith,
}
use mathlib.Core.List.{Mem, mem-cons_self, mem-cons_of_mem, mem-append_right}
use ai_inference_chain.Prelude.Dict.{Dict, get_or, keys, Fresh, IsDistinct}
use ai_inference_chain.Blockchain.Constants.{Text}
use ai_inference_chain.Blockchain.Transaction.{Transaction}
use ai_inference_chain.Blockchain.Mempool.{with_nonce, candidates}

-- Each list of transactions is filed under its sender, as `add` does.
abbrev pub Filed : Dict (List Transaction) → Type 0
Filed [] = Unit
Filed ((a, txs) ∷ d) = All (λ tx. tx.sender ≡ a) txs × Filed d

-- The transaction with which its sender goes on.
abbrev pub IsNext : Dict ℕ → Transaction → Type 0
IsNext nonces tx = tx.nonce ≡ get_or tx.sender nonces 0 + 1

with_nonce-IsNext :
    (nonces : Dict ℕ) (a : Text) (txs : List Transaction)
    → All (λ tx. tx.sender ≡ a) txs
    → All (IsNext nonces) (with_nonce (get_or a nonces 0 + 1) txs)
unfolding with_nonce
with_nonce-IsNext nonces a [] h = tt
with_nonce-IsNext nonces a (tx ∷ txs) h = ground (arith, h.0, with_nonce-IsNext nonces a txs h.1)

pub candidates-IsNext :
    (nonces : Dict ℕ) (d : Dict (List Transaction))
    → Filed d
    → All (IsNext nonces) (candidates nonces d)
unfolding candidates
candidates-IsNext nonces [] h = tt
candidates-IsNext nonces ((a, txs) ∷ d) h =
    All-append (IsNext nonces) (with_nonce (get_or a nonces 0 + 1) txs) (candidates nonces d)
      (with_nonce-IsNext nonces a txs h.0) (candidates-IsNext nonces d h.1)

-- One of the transactions has the nonce.
abbrev has_nonce : ℕ → List Transaction → Bool
has_nonce n [] = false
has_nonce n (tx ∷ txs) = tx.nonce == n || has_nonce n txs

with_nonce-found :
    (n : ℕ) (a : Text) (txs more : List Transaction)
    → All (λ tx. tx.sender ≡ a) txs
    → has_nonce n txs ≡ true
    → (c : Transaction) × Mem c (with_nonce n txs ++ more) × (c.sender ≡ a)
unfolding with_nonce
with_nonce-found n a [] more h e = absurd (ground (arith, e))
with_nonce-found n a (tx ∷ txs) more h e = elim (Bool-cases (tx.nonce == n)) [
  | inl q ↦ (tx, rw q mem-cons_self, h.0)
  | inr q ↦ rw q (with_nonce-found n a txs more h.1 (ground (arith, e, q)))
]

-- Every sender with a next transaction on file has one in the list.
abbrev pub Covers : Dict ℕ → Dict (List Transaction) → List Transaction → Type 0
Covers nonces d txs =
    (a : Text)
    → has_nonce (get_or a nonces 0 + 1) (get_or a d []) ≡ true
    → (tx : Transaction) × Mem tx txs × (tx.sender ≡ a)

pub candidates-Covers :
    (nonces : Dict ℕ) (d : Dict (List Transaction))
    → Filed d
    → Covers nonces d (candidates nonces d)
unfolding candidates
candidates-Covers nonces [] h a e = absurd (ground (arith, e))
candidates-Covers nonces ((b, txs) ∷ d) h a e = elim (Bool-cases (a == b)) [
  | inl q ↦
      let same : a ≡ b = ground (arith, q) in
      let here : has_nonce (get_or a nonces 0 + 1) txs ≡ true = rw (q, get_or) at e in
      let (c, m, s) =
        with_nonce-found (get_or b nonces 0 + 1) b txs (candidates nonces d) h.0
          (subst (λ x. has_nonce (get_or x nonces 0 + 1) txs ≡ true) same here) in
      (c, m, s ∙ sym same)
  | inr q ↦
      let later : has_nonce (get_or a nonces 0 + 1) (get_or a d []) ≡ true = rw (q, get_or) at e in
      let (c, m, s) = candidates-Covers nonces d h.1 a later in
      (c, mem-append_right (with_nonce (get_or b nonces 0 + 1) txs) m, s)
]

-- The transaction is in the pool's lists.
abbrev pub IsFiled : Dict (List Transaction) → Transaction → Type 0
IsFiled [] tx = ⊥
IsFiled ((a, txs) ∷ d) tx = Mem tx txs ⊎ IsFiled d tx

with_nonce-Mem : (n : ℕ) (txs : List Transaction) → All (λ tx. Mem tx txs) (with_nonce n txs)
unfolding with_nonce
with_nonce-Mem n [] = tt
with_nonce-Mem n (tx ∷ txs) = elim (Bool-cases (tx.nonce == n)) [
  | inl q ↦ rw q (mem-cons_self, tt)
  | inr q ↦ rw q (
      All-map {P = λ x. Mem x txs} {Q = λ x. Mem x (tx ∷ txs)} (λ x m. mem-cons_of_mem tx m)
        (with_nonce n txs) (with_nonce-Mem n txs))
]

pub candidates-IsFiled :
    (nonces : Dict ℕ) (d : Dict (List Transaction)) → All (IsFiled d) (candidates nonces d)
unfolding candidates
candidates-IsFiled nonces [] = tt
candidates-IsFiled nonces ((a, txs) ∷ d) =
    let n : ℕ = get_or a nonces 0 + 1 in
    All-append (IsFiled ((a, txs) ∷ d)) (with_nonce n txs) (candidates nonces d)
      (All-map {P = λ x. Mem x txs} {Q = IsFiled ((a, txs) ∷ d)} (λ x m. inl m) (with_nonce n txs)
        (with_nonce-Mem n txs))
      (All-map {P = IsFiled d} {Q = IsFiled ((a, txs) ∷ d)} (λ x f. inr f) (candidates nonces d)
        (candidates-IsFiled nonces d))

abbrev pub senders : List Transaction → List Text
senders txs = map (λ tx. tx.sender) txs

with_nonce-Fresh :
    (n : ℕ) (a b : Text) (txs more : List Transaction)
    → All (λ tx. tx.sender ≡ b) txs
    → a ≢ b
    → Fresh a (senders more)
    → Fresh a (senders (with_nonce n txs ++ more))
unfolding with_nonce
with_nonce-Fresh n a b [] more h k f = f
with_nonce-Fresh n a b (tx ∷ txs) more h k f = elim (Bool-cases (tx.nonce == n)) [
  | inl q ↦ rw q ((λ e. k (e ∙ h.0)), f)
  | inr q ↦ rw q (with_nonce-Fresh n a b txs more h.1 k f)
]

candidates-Fresh :
    (nonces : Dict ℕ) (a : Text) (d : Dict (List Transaction))
    → Filed d
    → Fresh a (keys d)
    → Fresh a (senders (candidates nonces d))
unfolding candidates
candidates-Fresh nonces a [] h f = tt
candidates-Fresh nonces a ((b, txs) ∷ d) h f =
    with_nonce-Fresh (get_or b nonces 0 + 1) a b txs (candidates nonces d) h.0 f.0
      (candidates-Fresh nonces a d h.1 f.1)

with_nonce-IsDistinct :
    (n : ℕ) (a : Text) (txs more : List Transaction)
    → All (λ tx. tx.sender ≡ a) txs
    → Fresh a (senders more)
    → IsDistinct (senders more)
    → IsDistinct (senders (with_nonce n txs ++ more))
unfolding with_nonce
with_nonce-IsDistinct n a [] more h f u = u
with_nonce-IsDistinct n a (tx ∷ txs) more h f u = elim (Bool-cases (tx.nonce == n)) [
  | inl q ↦ rw q (subst (λ x. Fresh x (senders more)) (sym h.0) f, u)
  | inr q ↦ rw q (with_nonce-IsDistinct n a txs more h.1 f u)
]

pub candidates-IsDistinct :
    (nonces : Dict ℕ) (d : Dict (List Transaction))
    → Filed d
    → IsDistinct (keys d)
    → IsDistinct (senders (candidates nonces d))
unfolding candidates
candidates-IsDistinct nonces [] h u = tt
candidates-IsDistinct nonces ((a, txs) ∷ d) h u =
    with_nonce-IsDistinct (get_or a nonces 0 + 1) a txs (candidates nonces d) h.0
      (candidates-Fresh nonces a d h.1 u.0) (candidates-IsDistinct nonces d h.1 u.1)
