-- ===== src/Registry/Validators/Lookups.antt =====
-- Looking validators up in core/registry/validator_registry.py: the index of addresses.
use ai_inference_chain.Prelude.{
  ℕ, ◌≡◌, refl, sym, subst, inl, inr, Bool, Bool-cases, Option-cases, none, some, [], ◌∷◌, Result,
  ok, >>-eq-ok, arith, ◌==◌, All, All-map,
}
use ai_inference_chain.Prelude.Dict.{Dict, lookup, insert, lookup-insert}
use ai_inference_chain.Blockchain.Constants.{Text}
use ai_inference_chain.Registry.Validators.{
  Registry, ValidatorStatus, ValidatorInfo, RegistrationRequest, change, register_validator,
  pending_validator, confirm_stake, confirm_found,
}

pub lookup-change_self :
    (k : Text) (f : ValidatorInfo → ValidatorInfo) (v : ValidatorInfo) (r : Registry)
    → lookup k r.validators ≡ some v
    → lookup k (change k f r).validators ≡ some (f v)
lookup-change_self k f v r e = ground (arith, e, lookup-insert k k (f v) r.validators)

-- The index leads to a validator with the address.
abbrev pub IsListed : Dict ValidatorInfo → Text × Text → Type 0
IsListed vs e = (v : ValidatorInfo) × (lookup e.1 vs ≡ some v) × (v.address ≡ e.0)

abbrev pub Indexed : Registry → Type 0
Indexed r = All (IsListed r.validators) r.address_index

-- A change of a validator that keeps its address keeps the index.
insert-IsListed :
    (k : Text) (v w : ValidatorInfo) (vs : Dict ValidatorInfo) (e : Text × Text)
    → lookup k vs ≡ some v
    → w.address ≡ v.address
    → IsListed vs e
    → IsListed (insert k w vs) e
insert-IsListed k v w vs (a, j) l s (u, f, g) = elim (Bool-cases (j == k)) [
  | inl e ↦ (w, ground (arith, e, lookup-insert j k w vs), ground (arith, e, l, s, f, g))
  | inr e ↦ (u, ground (arith, e, f, lookup-insert j k w vs), g)
]

pub change-Indexed :
    (k : Text) (f : ValidatorInfo → ValidatorInfo) (r : Registry)
    → ((v : ValidatorInfo) → (f v).address ≡ v.address)
    → Indexed r
    → Indexed (change k f r)
change-Indexed k f r s i = elim (Option-cases (lookup k r.validators)) [
  | inl e ↦ rw (e, change) i
  | inr (v, e) ↦
      rw (e, change)
        (All-map (λ x h. insert-IsListed k v (f v) r.validators x e (s v) h) r.address_index i)
]

-- A new entry of the index, for an id that no validator has.
insert_new-IsListed :
    (k : Text) (w : ValidatorInfo) (vs : Dict ValidatorInfo) (e : Text × Text)
    → lookup k vs ≡ none
    → IsListed vs e
    → IsListed (insert k w vs) e
insert_new-IsListed k w vs (a, j) n (u, f, g) = (u, ground (arith, n, f, lookup-insert j k w vs), g)

All-insert :
    (P : Text × Text → Type 0) (a k : Text) (d : Dict Text)
    → P (a, k)
    → All P d
    → All P (insert a k d)
All-insert P a k [] p h = (p, tt)
All-insert P a k ((b, j) ∷ d) p h = elim (Bool-cases (a == b)) [
  | inl e ↦ rw e (subst (λ x. P (x, k)) (ground (arith, e)) p, h.1)
  | inr e ↦ rw e (h.0, All-insert P a k d p h.1)
]

ok-second {ℓ κ} :
    {A : Type ℓ} {E : Type κ} {a b : A} {x y : Registry}
    → Path (Result E (A × Registry)) (ok (a, x)) (ok (b, y))
    → x ≡ y
ok-second e = cc

pub register-Indexed :
    (has_at : Text → Bool) (now k : ℕ) (q : RegistrationRequest) (r r' : Registry)
    (w : ValidatorInfo)
    → lookup k r.validators ≡ none
    → register_validator has_at now k q r ≡ ok (w, r')
    → Indexed r
    → Indexed r'
unfolding register_validator
register-Indexed has_at now k q r r' w n e i =
    let w' : ValidatorInfo = pending_validator now k q in
    let vs : Dict ValidatorInfo = insert k w' r.validators in
    subst (λ (x : Registry). Indexed x) (ok-second (>>-eq-ok _ _ (>>-eq-ok _ _ e).1).1)
      (All-insert (IsListed vs) q.address k r.address_index
        (w', ground (arith, lookup-insert k k w' r.validators), refl)
        (All-map (λ x h. insert_new-IsListed k w' r.validators x n h) r.address_index i))

abbrev activated : ℕ → ValidatorInfo → ValidatorInfo
activated now v = record v { status = ValidatorStatus.active; last_heartbeat = some now }

confirm_stake-writes :
    (now k tx : ℕ) (r r' : Registry) (v w : ValidatorInfo)
    → lookup k r.validators ≡ some v
    → confirm_stake now k tx r ≡ ok (w, r')
    → (r'.validators ≡ insert k (activated now v) r.validators)
      × (r'.address_index ≡ r.address_index)
unfolding confirm_stake confirm_found
confirm_stake-writes now k tx r r' v w f e = (ground (arith, e, f), ground (arith, e, f))

pub confirm-Indexed :
    (now k tx : ℕ) (r r' : Registry) (w : ValidatorInfo)
    → confirm_stake now k tx r ≡ ok (w, r')
    → Indexed r
    → Indexed r'
unfolding confirm_stake confirm_found
confirm-Indexed now k tx r r' w e i = elim (Option-cases (lookup k r.validators)) [
  | inl n ↦ absurd (ground (arith, e, n))
  | inr (v, f) ↦
      let (vs, index) = confirm_stake-writes now k tx r r' v w f e in
      subst (λ x. All (IsListed x) r'.address_index) (sym vs)
        (subst (λ x. All (IsListed (insert k (activated now v) r.validators)) x) (sym index)
          (All-map (λ x h. insert-IsListed k v (activated now v) r.validators x f refl h)
            r.address_index i))
]
