-- ===== src/Blockchain/Block/Inclusion.antt =====
-- Inclusion proofs for the Merkle tree of core/blockchain/utils.py.
use ai_inference_chain.Prelude.{
  ℕ, zero, suc, ◌≡◌, ◌⊎◌, ap, ◌∙◌, inl, inr, Bool, true, false, some, List, [], ◌∷◌, length, arith,
}
use ai_inference_chain.Blockchain.Constants.{Text}
use ai_inference_chain.Blockchain.Transaction.{Transaction}
use ai_inference_chain.Blockchain.Block.{
  Hashes, merkle_level, merkle_from_hashes, merkle_root_of, compute_merkle_root, tx_ids, climb,
  climb_all, verify_merkle_proof,
}

abbrev pub IsAmong : Text → List Text → Type 0
IsAmong x [] = ⊥
IsAmong x (y ∷ ys) = (x ≡ y) ⊎ IsAmong x ys

module _ (h : Hashes) where
  -- From an element of a level, with its sibling, to an element of the next level.
  level-climb :
      (x : Text) (xs : List Text)
      → IsAmong x xs
      → (s : Text × Bool) × IsAmong (climb h x s) (merkle_level h xs)
  unfolding merkle_level
  level-climb x [] m = absurd m
  level-climb x (a ∷ []) (inl e) = ((a, false), inl (ap (λ y. h.pair_hash y a) e))
  level-climb x (a ∷ []) (inr m) = absurd m
  level-climb x (a ∷ b ∷ xs) (inl e) = ((b, false), inl (ap (λ y. h.pair_hash y b) e))
  level-climb x (a ∷ b ∷ xs) (inr (inl e)) = ((a, true), inl (ap (λ y. h.pair_hash a y) e))
  level-climb x (a ∷ b ∷ xs) (inr (inr m)) = let up = level-climb x xs m in (up.0, inr up.1)

  -- Up to the root.
  root-climb :
      (fuel : ℕ) (x r : Text) (xs : List Text)
      → IsAmong x xs
      → merkle_from_hashes h fuel xs ≡ some r
      → (proof : List (Text × Bool)) × (climb_all h x proof ≡ r)
  unfolding merkle_from_hashes climb_all
  root-climb fuel x r [] m e = absurd m
  root-climb fuel x r (a ∷ []) (inl q) e = ([], q ∙ ground (arith, e))
  root-climb fuel x r (a ∷ []) (inr m) e = absurd m
  root-climb zero x r (a ∷ b ∷ xs) m e = ground (arith, e)
  root-climb (suc fuel) x r (a ∷ b ∷ xs) m e =
      let up = level-climb x (a ∷ b ∷ xs) m in
      let rest = root-climb fuel (climb h x up.0) r (merkle_level h (a ∷ b ∷ xs)) up.1 e in
      (up.0 ∷ rest.0, rest.1)

  -- For every transaction of a list there is a proof of its inclusion that the check accepts for the
  -- root of the list.
  pub verify_merkle_proof_complete :
      (txs : List Transaction) (x r : Text)
      → IsAmong x (tx_ids txs)
      → compute_merkle_root h txs ≡ some r
      → (proof : List (Text × Bool)) × (verify_merkle_proof h x proof r ≡ true)
  unfolding compute_merkle_root merkle_root_of verify_merkle_proof
  verify_merkle_proof_complete [] x r m e = absurd m
  verify_merkle_proof_complete (t ∷ txs) x r m e =
      let up = root-climb (length (tx_ids (t ∷ txs))) x r (tx_ids (t ∷ txs)) m e in
      (up.0, ground (arith, up.1))
