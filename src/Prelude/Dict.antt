-- ===== src/Prelude/Dict.antt =====
-- A Python dict keyed by identifiers: an association list in insertion order.
use Prim.Native.Nat.{ℕ, suc}
use mathlib.Core.Path.{◌≡◌, refl, ap, sym}
use mathlib.Core.Logic.{◌≢◌}
use mathlib.Core.Bool.{Bool, true, false}
use mathlib.Core.Option.{Option, none, some}
use mathlib.Core.List.{List, [], ◌∷◌, ◌++◌}
use native.Mathlib.Omega.{arith}
use ai_inference_chain.Prelude.Tests.{◌==◌, if◌then◌else◌}
use ai_inference_chain.Prelude.Lists.{length}
use ai_inference_chain.Prelude.Int.{ℤ, pos, ◌+ℤ◌, int_laws}

abbrev pub Dict {ℓ} : Type ℓ → Type ℓ
Dict A = List (ℕ × A)

module _ {ℓ} {A : Type ℓ} where
  abbrev pub keys : Dict A → List ℕ
  keys [] = []
  keys ((b, y) ∷ es) = b ∷ keys es

  abbrev pub values : Dict A → List A
  values [] = []
  values ((b, y) ∷ es) = y ∷ values es

  -- `d.pop(k, None)`, and `del d[k]` where `k` is present
  abbrev pub erase : ℕ → Dict A → Dict A
  erase a [] = []
  erase a ((b, y) ∷ es) = if a == b then es else (b, y) ∷ erase a es

  -- `d.get(k)`
  abbrev pub lookup : ℕ → Dict A → Option A
  lookup a [] = none
  lookup a ((b, y) ∷ es) = if a == b then some y else lookup a es

  -- `d.get(k, default)`
  abbrev pub get_or : ℕ → Dict A → A → A
  get_or a es x = elim (lookup a es) [ none ↦ x | some y ↦ y ]

  -- `d[k] = v`, which keeps the place of a key that is there
  abbrev pub insert : ℕ → A → Dict A → Dict A
  insert a x [] = (a, x) ∷ []
  insert a x ((b, y) ∷ es) = if a == b then (b, x) ∷ es else (b, y) ∷ insert a x es

  -- `k in d`
  abbrev pub contains : ℕ → Dict A → Bool
  contains a es = elim (lookup a es) [ none ↦ false | some _ ↦ true ]

  pub length-values : (es : Dict A) → length (values es) ≡ length es
  length-values [] = refl
  length-values ((b, y) ∷ es) = omega (arith, length-values es)

  pub lookup-insert :
      (c a : ℕ) (x : A) (es : Dict A)
      → lookup c (insert a x es) ≡ (if c == a then some x else lookup c es)
  lookup-insert c a x [] = refl
  lookup-insert c a x ((b, y) ∷ es) = ground (arith, lookup-insert c a x es)

  pub length-insert_new :
      (a : ℕ) (x : A) (es : Dict A) → lookup a es ≡ none → length (insert a x es) ≡ suc (length es)
  length-insert_new a x [] h = refl
  length-insert_new a x ((b, y) ∷ es) h = ground (arith, length-insert_new a x es)

-- No key stands twice: what Python guarantees of a dict.
abbrev pub Fresh : ℕ → List ℕ → Type 0
Fresh k [] = Unit {0}
Fresh k (j ∷ js) = (k ≢ j) × Fresh k js

abbrev pub IsDistinct : List ℕ → Type 0
IsDistinct [] = Unit {0}
IsDistinct (k ∷ ks) = Fresh k ks × IsDistinct ks

module _ {ℓ} {V : Type ℓ} where
  pub Fresh-insert :
      (j k : ℕ) (v : V) (d : Dict V) → j ≢ k → Fresh j (keys d) → Fresh j (keys (insert k v d))
  Fresh-insert j k v [] n h = (n, tt)
  Fresh-insert j k v ((i, w) ∷ d) n h = ground (arith, Fresh-insert j k v d n h.1)

  pub insert-IsDistinct :
      (k : ℕ) (v : V) (d : Dict V) → IsDistinct (keys d) → IsDistinct (keys (insert k v d))
  insert-IsDistinct k v [] h = (tt, tt)
  insert-IsDistinct k v ((i, w) ∷ d) h =
      ground (arith, insert-IsDistinct k v d h.1, Fresh-insert i k v d)

  pub Fresh-erase : (j k : ℕ) (d : Dict V) → Fresh j (keys d) → Fresh j (keys (erase k d))
  Fresh-erase j k [] h = tt
  Fresh-erase j k ((i, w) ∷ d) h = ground (arith, Fresh-erase j k d h.1)

  pub erase-IsDistinct : (k : ℕ) (d : Dict V) → IsDistinct (keys d) → IsDistinct (keys (erase k d))
  erase-IsDistinct k [] h = tt
  erase-IsDistinct k ((i, w) ∷ d) h =
      ground (arith, erase-IsDistinct k d h.1, Fresh-erase i k d h.0)

  pub lookup-Fresh : (k : ℕ) (d : Dict V) → Fresh k (keys d) → lookup k d ≡ none
  lookup-Fresh k [] h = refl
  lookup-Fresh k ((i, w) ∷ d) h = ground (arith, lookup-Fresh k d h.1)

  pub lookup-erase_self : (k : ℕ) (d : Dict V) → IsDistinct (keys d) → lookup k (erase k d) ≡ none
  lookup-erase_self k [] h = refl
  lookup-erase_self k ((i, w) ∷ d) h =
      ground (arith, lookup-erase_self k d h.1, lookup-Fresh i d h.0)

-- `sum(d.values())`
abbrev pub sum_values : Dict ℤ → ℤ
sum_values [] = pos 0
sum_values ((j, v) ∷ d) = v +ℤ sum_values d

-- A write changes the sum by the difference of the new and the old value.
pub sum_values-insert :
    (k : ℕ) (v : ℤ) (d : Dict ℤ)
    → sum_values (insert k v d) +ℤ get_or k d (pos 0) ≡ sum_values d +ℤ v
sum_values-insert k v [] = omega int_laws
sum_values-insert k v ((i, w) ∷ d) = grind (int_laws, sum_values-insert k v d)

module _ {ℓ} {V : Type ℓ} where
  -- A new key goes to the end.
  pub insert-Fresh :
      (k : ℕ) (v : V) (d : Dict V) → Fresh k (keys d) → insert k v d ≡ d ++ (k, v) ∷ []
  insert-Fresh k v [] f = refl
  insert-Fresh k v ((j, w) ∷ d) f = ground (arith, insert-Fresh k v d f.1)

  pub Fresh-append :
      (j k : ℕ) (v : V) (d : Dict V) → Fresh j (keys d) → j ≢ k → Fresh j (keys (d ++ (k, v) ∷ []))
  Fresh-append j k v [] f n = (n, tt)
  Fresh-append j k v ((i, w) ∷ d) f n = (f.0, Fresh-append j k v d f.1 n)

  -- An entry in the middle.
  pub append-snoc :
      (d : Dict V) (e : ℕ × V) (later : Dict V) → (d ++ e ∷ []) ++ later ≡ d ++ e ∷ later
  append-snoc [] e later = refl
  append-snoc (x ∷ d) e later = ap (λ es. x ∷ es) (append-snoc d e later)

  pub erase-middle :
      (k : ℕ) (v : V) (d later : Dict V)
      → Fresh k (keys d)
      → erase k (d ++ (k, v) ∷ later) ≡ d ++ later
  erase-middle k v [] later f = ground arith
  erase-middle k v ((j, w) ∷ d) later f = ground (arith, erase-middle k v d later f.1)

  Fresh-middle : (j k : ℕ) (v : V) (d later : Dict V) → Fresh j (keys (d ++ (k, v) ∷ later)) → j ≢ k
  Fresh-middle j k v [] later f = f.0
  Fresh-middle j k v (e ∷ d) later f = Fresh-middle j k v d later f.1

  pub IsDistinct-middle :
      (k : ℕ) (v : V) (d later : Dict V)
      → IsDistinct (keys (d ++ (k, v) ∷ later))
      → Fresh k (keys d)
  IsDistinct-middle k v [] later h = tt
  IsDistinct-middle k v ((j, w) ∷ d) later h =
      (λ e. Fresh-middle j k v d later h.0 (sym e), IsDistinct-middle k v d later h.1)
