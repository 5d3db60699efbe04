-- ===== src/Registry/Models/Unique.antt =====
-- Rows of the table models of core/registry/model_registry.py with no keys in common.
use ai_inference_chain.Prelude.{
  ◌≢◌, All, ℕ, ◌≡◌, refl, ◌∙◌, false, List, [], ◌∷◌, ◌++◌, ◌==◌, if_elim, arith,
}
use ai_inference_chain.Blockchain.Constants.{Text}
use ai_inference_chain.Registry.Models.{Model, ModelState, conflicts, set_state}

-- No row conflicts with a later one.
abbrev pub Free : List Model → Type 0
Free [] = Unit {0}
Free (x ∷ xs) = (conflicts x xs ≡ false) × Free xs

-- Two rows differ in their ids, and in their versions where they have one name.
abbrev pub Apart : Model → Model → Type 0
Apart x y = (x.model_id ≢ y.model_id) × (x.name ≡ y.name → x.version ≢ y.version)

abbrev pub Unique : List Model → Type 0
Unique [] = Unit {0}
Unique (x ∷ xs) = All (Apart x) xs × Unique xs

conflicts-Apart : (x : Model) (xs : List Model) → conflicts x xs ≡ false → All (Apart x) xs
conflicts-Apart x [] e = tt
conflicts-Apart x (y ∷ xs) e = (
  ((λ p. ground (arith, e, p)), (λ p q. ground (arith, e, p, q))),
  conflicts-Apart x xs (ground (arith, e)),
)

pub Free-Unique : (xs : List Model) → Free xs → Unique xs
Free-Unique [] f = tt
Free-Unique (x ∷ xs) f = (conflicts-Apart x xs f.0, Free-Unique xs f.1)

conflicts-append :
    (x m : Model) (xs : List Model)
    → conflicts x xs ≡ false
    → conflicts m (x ∷ xs) ≡ false
    → conflicts x (xs ++ m ∷ []) ≡ false
conflicts-append x m [] e f = ground (arith, f)
conflicts-append x m (y ∷ xs) e f = ground (arith, e, f, conflicts-append x m xs)

pub append-Free :
    (m : Model) (xs : List Model) → Free xs → conflicts m xs ≡ false → Free (xs ++ m ∷ [])
append-Free m [] u e = (refl, tt)
append-Free m (x ∷ xs) u e =
    (conflicts-append x m xs u.0 e, append-Free m xs u.1 (ground (arith, e)))

-- A change of states changes no key.
conflicts-set_state :
    (now : ℕ) (k : Text) (s : ModelState) (x y : Model) (xs : List Model)
    → x.model_id ≡ y.model_id
    → x.name ≡ y.name
    → x.version ≡ y.version
    → conflicts y (set_state now k s xs) ≡ conflicts x xs
unfolding set_state
conflicts-set_state now k s x y [] p q r = refl
conflicts-set_state now k s x y (z ∷ xs) p q r =
    ground (arith, p, q, r, conflicts-set_state now k s x y xs p q r)

pub set_state-Free :
    (now : ℕ) (k : Text) (s : ModelState) (xs : List Model) → Free xs → Free (set_state now k s xs)
unfolding set_state
set_state-Free now k s [] u = tt
set_state-Free now k s (x ∷ xs) u = (
  if_elim (λ y. conflicts y (set_state now k s xs) ≡ false) (x.model_id == k) _ _
      (λ e.
        conflicts-set_state now k s x (record x { state = s; updated_at = now }) xs refl refl refl
        ∙ u.0)
      (λ e. conflicts-set_state now k s x x xs refl refl refl ∙ u.0),
  set_state-Free now k s xs u.1,
)
