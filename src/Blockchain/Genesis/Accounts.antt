-- ===== src/Blockchain/Genesis/Accounts.antt =====
-- What a credit, a debit and a stake do to the balance and to the stake of an address.
use ai_inference_chain.Prelude.{
  ℕ, ◌≡◌, refl, sym, ap, ◌∙◌, inl, inr, Bool-cases, if◌then◌else◌, ◌==◌, arith,
}
use ai_inference_chain.Prelude.Int.{pos, ◌+ℤ◌, ◌-ℤ◌, int_laws}
use ai_inference_chain.Prelude.Dict.{Dict, insert, get_or, lookup-insert}
use ai_inference_chain.Blockchain.Constants.{Text, Amount}
use ai_inference_chain.Blockchain.Chain.State.{ChainState, balance_of, stake_of}
use ai_inference_chain.Blockchain.Chain.Apply.{credit, debit, set_stake}

get_or-insert :
    (c a : ℕ) (x : Amount) (es : Dict Amount) (y : Amount)
    → get_or c (insert a x es) y ≡ (if c == a then x else get_or c es y)
get_or-insert c a x es y = ground (arith, lookup-insert c a x es)

-- A change of the amount of one address.
get_or-change :
    (f : Amount → Amount) (a b : Text) (d : Dict Amount)
    → get_or a (insert b (f (get_or b d (pos 0))) d) (pos 0)
      ≡ (if a == b then f (get_or a d (pos 0)) else get_or a d (pos 0))
get_or-change f a b d = elim (Bool-cases (a == b)) [
  | inl e ↦
      let same : a ≡ b = ground (arith, e) in
      get_or-insert a b (f (get_or b d (pos 0))) d (pos 0)
      ∙ rw e (ap (λ c. f (get_or c d (pos 0))) (sym same))
  | inr e ↦ get_or-insert a b (f (get_or b d (pos 0))) d (pos 0) ∙ rw e refl
]

module _ (a b : Text) (x : Amount) (s : ChainState) where
  -- Only the address itself is credited and debited.
  pub balance_of-credit :
      balance_of (credit b x s) a ≡ balance_of s a +ℤ (if a == b then x else pos 0)
  unfolding credit
  balance_of-credit = get_or-change (λ v. v +ℤ x) a b s.balances ∙ grind int_laws

  pub balance_of-debit :
      balance_of (debit b x s) a ≡ balance_of s a -ℤ (if a == b then x else pos 0)
  unfolding debit
  balance_of-debit = get_or-change (λ v. v -ℤ x) a b s.balances ∙ grind int_laws

  pub stake_of-more :
      stake_of (set_stake b (stake_of s b +ℤ x) s) a ≡ stake_of s a +ℤ (if a == b then x else pos 0)
  unfolding set_stake
  stake_of-more = get_or-change (λ v. v +ℤ x) a b s.stakes ∙ grind int_laws
