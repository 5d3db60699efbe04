-- ===== src/Registry/Models/Versions.antt =====
-- The rows of model_versions that register_model of core/registry/model_registry.py adds.
use ai_inference_chain.Prelude.{
  ℕ, ◌≡◌, refl, sym, ap, ◌∙◌, inl, inr, true, false, Bool, Bool-cases, List, [], ◌∷◌, ◌++◌, map,
  keep, not, ◌==◌, if◌then◌else◌, if_elim,
}
use mathlib.Core.List.{append-nil}
use ai_inference_chain.Blockchain.Constants.{Text, no_text}
use ai_inference_chain.Registry.Models.{Model, ModelVersion, ModelState, draft, set_state}

-- The row of model_versions that a registered model has.
abbrev pub first_version : Model → ModelVersion
first_version m = record {
  model_id = m.model_id;
  version = m.version;
  model_path = m.model_path;
  state = draft;
  created_at = m.created_at;
  created_by = m.author;
}

abbrev has_path : Model → Bool
has_path m = not (m.model_path == no_text)

abbrev pub first_versions : List Model → List ModelVersion
first_versions ms = map first_version (keep has_path ms)

first_versions-cons :
    (m : Model) (ms : List Model)
    → first_versions (m ∷ ms)
      ≡ (if has_path m then first_version m ∷ first_versions ms else first_versions ms)
first_versions-cons m ms = elim (Bool-cases (has_path m)) [ inl e ↦ rw e refl | inr e ↦ rw e refl ]

pub first_versions-set_state :
    (now : ℕ) (k : Text) (s : ModelState) (xs : List Model)
    → first_versions (set_state now k s xs) ≡ first_versions xs
unfolding set_state
first_versions-set_state now k s [] = refl
first_versions-set_state now k s (x ∷ xs) =
    let rest = set_state now k s xs in
    if_elim (λ y. first_versions (y ∷ rest) ≡ first_versions (x ∷ xs)) (x.model_id == k) _ _
      (λ e.
        first_versions-cons (record x { state = s; updated_at = now }) rest
        ∙ ap (λ vs. if has_path x then first_version x ∷ vs else vs)
            (first_versions-set_state now k s xs)
        ∙ sym (first_versions-cons x xs))
      (λ e.
        first_versions-cons x rest
        ∙ ap (λ vs. if has_path x then first_version x ∷ vs else vs)
            (first_versions-set_state now k s xs)
        ∙ sym (first_versions-cons x xs))

first_versions-append :
    (m : Model) (xs : List Model)
    → first_versions (xs ++ m ∷ []) ≡ first_versions xs ++ first_versions (m ∷ [])
first_versions-append m [] = refl
first_versions-append m (x ∷ xs) = elim (Bool-cases (has_path x)) [
  | inl e ↦ rw e (ap (λ vs. first_version x ∷ vs) (first_versions-append m xs))
  | inr e ↦ rw e (first_versions-append m xs)
]

pub first_versions-append_pathless :
    (m : Model) (xs : List Model)
    → (m.model_path == no_text) ≡ true
    → first_versions (xs ++ m ∷ []) ≡ first_versions xs
first_versions-append_pathless m xs e =
    let alone : first_versions (m ∷ []) ≡ [] = rw e refl in
    first_versions-append m xs
    ∙ ap (λ vs. first_versions xs ++ vs) alone
    ∙ append-nil (first_versions xs)

pub first_versions-append_with_path :
    (m : Model) (xs : List Model)
    → (m.model_path == no_text) ≡ false
    → first_versions (xs ++ m ∷ []) ≡ first_versions xs ++ first_version m ∷ []
first_versions-append_with_path m xs e =
    let alone : first_versions (m ∷ []) ≡ first_version m ∷ [] = rw e refl in
    first_versions-append m xs ∙ ap (λ vs. first_versions xs ++ vs) alone
