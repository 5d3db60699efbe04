-- ===== src/Blockchain/Mempool/Selection.antt =====
-- What `select_simple` of core/blockchain/mempool.py gives a block builder.
use ai_inference_chain.Prelude.{
  ℕ, zero, suc, ◌≤◌, ◌≡◌, refl, sym, ap, subst, ◌⊎◌, inl, inr, Bool, Bool-cases, List, [], ◌∷◌,
  ◌++◌, length, take, All, arith,
}
use mathlib.Core.List.{Perm}
use mathlib.Core.List.Perm
use ai_inference_chain.Prelude.Int.{◌≤ℤ◌, int_laws}
use ai_inference_chain.Prelude.Dict.{Dict}
use ai_inference_chain.Blockchain.Transaction.{Transaction}
use ai_inference_chain.Blockchain.Mempool.{
  Mempool, insert_sorted, sort, higher_fee, candidates, select_simple,
}

-- A property of all elements survives sorting and taking.
module _ {ℓ κ} {A : Type ℓ} (P : A → Type κ) (precedes : A → A → Bool) where
  All-insert_sorted : (x : A) (ys : List A) → P x → All P ys → All P (insert_sorted precedes x ys)
  unfolding insert_sorted
  All-insert_sorted x [] p h = (p, h)
  All-insert_sorted x (y ∷ ys) p h = elim (Bool-cases (precedes y x)) [
    | inl e ↦ rw e (h.0, All-insert_sorted x ys p h.1)
    | inr e ↦ rw e (p, h)
  ]

  pub All-sort : (xs : List A) → All P xs → All P (sort precedes xs)
  unfolding sort
  All-sort [] h = h
  All-sort (x ∷ xs) h = All-insert_sorted x (sort precedes xs) h.0 (All-sort xs h.1)

pub All-take {ℓ κ} :
    {A : Type ℓ} (P : A → Type κ) (n : ℕ) (xs : List A) → All P xs → All P (take n xs)
All-take P zero xs h = tt
All-take P (suc n) [] h = tt
All-take P (suc n) (x ∷ xs) h = (h.0, All-take P n xs h.1)

-- What is taken, what is left, and why it ends there.
take-rest {ℓ} :
    {A : Type ℓ} (n : ℕ) (xs : List A)
    → (rest : List A) × (take n xs ++ rest ≡ xs)
      × (length (take n xs) ≤ n)
      × ((rest ≡ []) ⊎ (length (take n xs) ≡ n))
take-rest zero xs = (xs, refl, omega arith, inr refl)
take-rest (suc n) [] = ([], refl, omega arith, inl refl)
take-rest (suc n) (x ∷ xs) =
    let (rest, e, le, end) = take-rest n xs in
    (
      rest,
      ap (λ l. x ∷ l) e,
      omega (arith, le),
      elim end [ inl h ↦ inl h | inr h ↦ inr (ap suc h) ],
    )

-- Sorting keeps the elements.
module _ {ℓ} {A : Type ℓ} (precedes : A → A → Bool) where
  insert_sorted-Perm : (x : A) (ys : List A) → Perm (insert_sorted precedes x ys) (x ∷ ys)
  unfolding insert_sorted
  insert_sorted-Perm x [] = Perm.refl (x ∷ [])
  insert_sorted-Perm x (y ∷ ys) = elim (Bool-cases (precedes y x)) [
    | inl e ↦ rw e (Perm.trans (Perm.cons y (insert_sorted-Perm x ys)) (Perm.swap x y ys))
    | inr e ↦ rw e (Perm.refl (x ∷ y ∷ ys))
  ]

  sort-Perm : (xs : List A) → Perm (sort precedes xs) xs
  unfolding sort
  sort-Perm [] = Perm.refl []
  sort-Perm (x ∷ xs) =
      Perm.trans (insert_sorted-Perm x (sort precedes xs)) (Perm.cons x (sort-Perm xs))

-- Each fee is at least every later one.
abbrev FeesDescend : List Transaction → Type 0
FeesDescend [] = Unit
FeesDescend (x ∷ xs) = All (λ y. y.fee ≤ℤ x.fee) xs × FeesDescend xs

All-below :
    (x y : Transaction) (ys : List Transaction)
    → y.fee ≤ℤ x.fee
    → All (λ z. z.fee ≤ℤ y.fee) ys
    → All (λ z. z.fee ≤ℤ x.fee) ys
All-below x y [] le h = tt
All-below x y (z ∷ ys) le h = (omega (int_laws, h.0, le), All-below x y ys le h.1)

insert_sorted-FeesDescend :
    (x : Transaction) (ys : List Transaction)
    → FeesDescend ys
    → FeesDescend (insert_sorted higher_fee x ys)
unfolding insert_sorted
insert_sorted-FeesDescend x [] h = (tt, tt)
insert_sorted-FeesDescend x (y ∷ ys) h = elim (Bool-cases (higher_fee y x)) [
  | inl e ↦ rw e (
    All-insert_sorted (λ z. z.fee ≤ℤ y.fee) higher_fee x ys (ground (arith, e)) h.0,
    insert_sorted-FeesDescend x ys h.1,
  )
  | inr e ↦ let le : y.fee ≤ℤ x.fee = ground (arith, e) in rw e ((le, All-below x y ys le h.0), h)
]

sort-FeesDescend : (xs : List Transaction) → FeesDescend (sort higher_fee xs)
unfolding sort
sort-FeesDescend [] = tt
sort-FeesDescend (x ∷ xs) = insert_sorted-FeesDescend x (sort higher_fee xs) (sort-FeesDescend xs)

-- The best `n` of the candidates by their fees: with the rest they are the candidates from the highest
-- fee down, and only what does not fit is left.
abbrev pub IsBest : ℕ → List Transaction → List Transaction → Type 0
IsBest n txs all =
    (rest : List Transaction) × Perm (txs ++ rest) all
    × FeesDescend (txs ++ rest)
    × (length txs ≤ n)
    × ((rest ≡ []) ⊎ (length txs ≡ n))

pub select_simple-IsBest :
    (nonces : Dict ℕ) (n : ℕ) (m : Mempool)
    → IsBest n (select_simple nonces n m) (candidates nonces m.by_sender)
unfolding select_simple
select_simple-IsBest nonces n m =
    let all : List Transaction = candidates nonces m.by_sender in
    let (rest, e, le, end) = take-rest n (sort higher_fee all) in
    (
      rest,
      subst (λ l. Perm l all) (sym e) (sort-Perm higher_fee all),
      subst FeesDescend (sym e) (sort-FeesDescend all),
      le,
      end,
    )
