-- ===== src/Blockchain/Block/Merkle.antt =====
-- The Merkle root of core/blockchain/utils.py and its check in core/blockchain/block.py.
use ai_inference_chain.Prelude.{
  ℕ, zero, suc, ◌+◌, ◌≤◌, ◌≡◌, ◌≢◌, refl, ap, ◌∙◌, sym, Option-cases, inl, inr, some, List, [], ◌∷◌,
  ◌++◌, arith, length, length-append,
}
use mathlib.Core.List.{append_assoc, map-append}
use ai_inference_chain.Blockchain.Constants.{Text}
use ai_inference_chain.Blockchain.Transaction.{Transaction}
use ai_inference_chain.Blockchain.Block.{
  Hashes, Block, merkle_level, merkle_from_hashes, merkle_root_of, compute_merkle_root, tx_ids,
  all_transactions, verify_merkle_root, block_hash, is_root,
}

-- Pairs all the way: the list has an even length.
abbrev pub IsPaired {ℓ} : {A : Type ℓ} → List A → Type 0
IsPaired [] = Unit
IsPaired (a ∷ []) = ⊥
IsPaired (a ∷ b ∷ xs) = IsPaired xs

tx_ids-IsPaired : (txs : List Transaction) → IsPaired txs → IsPaired (tx_ids txs)
tx_ids-IsPaired [] e = tt
tx_ids-IsPaired (a ∷ []) e = e
tx_ids-IsPaired (a ∷ b ∷ txs) e = tx_ids-IsPaired txs e

all_transactions-system :
    (b : Block) (ys zs : List Transaction)
    → all_transactions (record b { system_txs = ys ++ zs })
      ≡ all_transactions (record b { system_txs = ys }) ++ zs
all_transactions-system b ys zs = elim (Option-cases b.inference_tx) [
  | inl e ↦ rw (e, append_assoc b.simple_txs ys zs) refl
  | inr (tx, e) ↦ rw (e, append_assoc b.simple_txs ys zs) refl
]

module _ (h : Hashes) where
  -- A level has half as many hashes, rounded up.
  length-merkle_level :
      (xs : List Text) → length (merkle_level h xs) + length (merkle_level h xs) ≤ length xs + 1
  unfolding merkle_level
  length-merkle_level [] = omega arith
  length-merkle_level (a ∷ []) = omega arith
  length-merkle_level (a ∷ b ∷ xs) = omega (arith, length-merkle_level xs)

  merkle_level-ne-nil : (a : Text) (xs : List Text) → merkle_level h (a ∷ xs) ≢ []
  unfolding merkle_level
  merkle_level-ne-nil a [] e = cc
  merkle_level-ne-nil a (b ∷ xs) e = cc

  -- Enough fuel gives a root.
  merkle_from_hashes-total :
      (fuel : ℕ) (xs : List Text)
      → xs ≢ []
      → length xs ≤ fuel + 1
      → (r : Text) × (merkle_from_hashes h fuel xs ≡ some r)
  unfolding merkle_from_hashes
  merkle_from_hashes-total fuel [] ne le = absurd (ne refl)
  merkle_from_hashes-total fuel (a ∷ []) ne le = (a, refl)
  merkle_from_hashes-total zero (a ∷ b ∷ xs) ne le = absurd (omega arith)
  merkle_from_hashes-total (suc fuel) (a ∷ b ∷ xs) ne le =
      merkle_from_hashes-total fuel (merkle_level h (a ∷ b ∷ xs)) (merkle_level-ne-nil a (b ∷ xs))
        (omega (arith, length-merkle_level (a ∷ b ∷ xs)))

  -- Any two amounts of fuel that are enough give the same root.
  merkle_from_hashes-fuel :
      (fuel other : ℕ) (xs : List Text)
      → length xs ≤ fuel + 1
      → length xs ≤ other + 1
      → merkle_from_hashes h fuel xs ≡ merkle_from_hashes h other xs
  unfolding merkle_from_hashes
  merkle_from_hashes-fuel fuel other [] le le' = refl
  merkle_from_hashes-fuel fuel other (a ∷ []) le le' = refl
  merkle_from_hashes-fuel zero other (a ∷ b ∷ xs) le le' = absurd (omega arith)
  merkle_from_hashes-fuel (suc fuel) zero (a ∷ b ∷ xs) le le' = absurd (omega arith)
  merkle_from_hashes-fuel (suc fuel) (suc other) (a ∷ b ∷ xs) le le' =
      merkle_from_hashes-fuel fuel other (merkle_level h (a ∷ b ∷ xs))
        (omega (arith, length-merkle_level (a ∷ b ∷ xs)))
        (omega (arith, length-merkle_level (a ∷ b ∷ xs)))

  -- The loop of `_merkle_from_hashes` ends: every list of transactions has a root.
  pub compute_merkle_root-total :
      (txs : List Transaction) → (r : Text) × (compute_merkle_root h txs ≡ some r)
  unfolding compute_merkle_root
  compute_merkle_root-total [] = (h.empty_hash, refl)
  compute_merkle_root-total (t ∷ ts) =
      merkle_from_hashes-total (length (tx_ids (t ∷ ts))) (tx_ids (t ∷ ts)) (λ e. cc) (omega arith)

  merkle_level-repeat :
      (xs : List Text) (x : Text)
      → IsPaired xs
      → merkle_level h (xs ++ x ∷ x ∷ []) ≡ merkle_level h (xs ++ x ∷ [])
  unfolding merkle_level
  merkle_level-repeat [] x e = refl
  merkle_level-repeat (a ∷ []) x e = absurd e
  merkle_level-repeat (a ∷ b ∷ xs) x e = ap (◌∷◌ (h.pair_hash a b)) (merkle_level-repeat xs x e)

  merkle_root_of-repeat :
      (a b : Text) (xs : List Text) (x : Text)
      → IsPaired xs
      → merkle_root_of h (a ∷ b ∷ xs ++ x ∷ x ∷ []) ≡ merkle_root_of h (a ∷ b ∷ xs ++ x ∷ [])
  unfolding merkle_root_of merkle_from_hashes
  merkle_root_of-repeat a b xs x e =
      ap (merkle_from_hashes h (suc (length (xs ++ x ∷ x ∷ []))))
        (merkle_level-repeat (a ∷ b ∷ xs) x e)
      ∙ (merkle_from_hashes-fuel (suc (length (xs ++ x ∷ x ∷ []))) (suc (length (xs ++ x ∷ [])))
          (merkle_level h (a ∷ b ∷ (xs ++ x ∷ [])))
          (omega (
            arith,
            length-merkle_level (a ∷ b ∷ (xs ++ x ∷ [])),
            length-append {0} xs (x ∷ []),
            length-append {0} xs (x ∷ x ∷ []),
          ))
          (omega
            (arith, length-merkle_level (a ∷ b ∷ (xs ++ x ∷ [])), length-append {0} xs (x ∷ []))))

  compute_merkle_root-repeat :
      (front : List Transaction) (t : Transaction)
      → IsPaired front
      → front ≢ []
      → compute_merkle_root h (front ++ t ∷ t ∷ []) ≡ compute_merkle_root h (front ++ t ∷ [])
  unfolding compute_merkle_root
  compute_merkle_root-repeat [] t e ne = absurd (ne refl)
  compute_merkle_root-repeat (a ∷ []) t e ne = absurd e
  compute_merkle_root-repeat (a ∷ b ∷ front) t e ne =
      rw
        (
          map-append (λ (tx : Transaction). tx.tx_id) front (t ∷ t ∷ []),
          map-append (λ (tx : Transaction). tx.tx_id) front (t ∷ []),
        )
        (merkle_root_of-repeat a.tx_id b.tx_id (tx_ids front) t.tx_id (tx_ids-IsPaired front e))

  -- A block's root does not fix its transactions. If an even number of transactions, not none,
  -- stands before a block's last system transaction, then the block with that transaction
  -- repeated has the same hash and passes the Merkle check exactly if the block did.
  verify_merkle_root-repeat :
      (b : Block) (ys : List Transaction) (t : Transaction)
      → IsPaired (all_transactions (record b { system_txs = ys }))
      → all_transactions (record b { system_txs = ys }) ≢ []
      → (verify_merkle_root h (record b { system_txs = ys ++ t ∷ t ∷ [] })
          ≡ verify_merkle_root h (record b { system_txs = ys ++ t ∷ [] }))
        × (block_hash h (record b { system_txs = ys ++ t ∷ t ∷ [] }) ≡ block_hash h b)
  unfolding verify_merkle_root block_hash
  verify_merkle_root-repeat b ys t e ne =
      let front : List Transaction = all_transactions (record b { system_txs = ys }) in
      (
        ap (is_root b.header.merkle_root) (
            ap (compute_merkle_root h) (all_transactions-system b ys (t ∷ t ∷ []))
            ∙ compute_merkle_root-repeat front t e ne
            ∙ ap (compute_merkle_root h) (sym (all_transactions-system b ys (t ∷ [])))),
        refl,
      )
