-- ===== src/Registry/Models/Keys.antt =====
-- The keys of the tables of core/registry/model_registry.py over any calls, and what a validation does.
use ai_inference_chain.Prelude.{
  ℕ, ◌≡◌, refl, sym, ap, subst, ◌∙◌, inl, inr, false, ◌||◌, ◌&&◌, Bool-cases, some, List, [], ◌∷◌,
  ◌++◌, ◌==◌, if◌then◌else◌, if_elim, Result, arith,
}
use ai_inference_chain.Blockchain.Constants.{Text, no_text}
use ai_inference_chain.Registry.Models.{
  Model, ModelState, approved, draft, Validation, Benchmark, Database, IntegrityError, initialize,
  conflicts, lacks_column, register_model, find_model, get_model, find_version,
  get_model_by_name_version, set_state, update_model_state, add_validation, add_benchmark,
}
use ai_inference_chain.Registry.Models.Unique.{
  Free, Free-Unique, Unique, append-Free, set_state-Free,
}
use ai_inference_chain.Registry.Models.Versions.{
  first_version, first_versions, first_versions-append_pathless, first_versions-append_with_path,
  first_versions-set_state,
}

-- A call of a method that writes.
pub data Call : Type 0 where
  registers : ℕ → Model → Call
  validates : ℕ → Validation → Call
  measures : Benchmark → Call
  updates_state : ℕ → Text → ModelState → Call

-- A call that raises leaves what it has written.
unfoldable pub step : Database → Call → Database
step d (registers now m) = (register_model now m d).1
step d (validates now v) = (add_validation now v d).1
step d (measures b) = (add_benchmark b d).1
step d (updates_state now k s) = update_model_state now k s d

unfoldable pub run : Database → List Call → Database
unfolding step
run d [] = d
run d (c ∷ cs) = run (step d c) cs

-- The models have unique keys, and those with a path have their first versions on file.
pub record Keyed (d : Database) : Type 0 where
  pub free : Free d.models
  pub versions : d.model_versions ≡ first_versions d.models

update-Keyed :
    (now : ℕ) (k : Text) (s : ModelState) (d : Database)
    → Keyed d
    → Keyed (update_model_state now k s d)
unfolding update_model_state
update-Keyed now k s d h = record {
  free = set_state-Free now k s d.models h.free;
  versions = h.versions ∙ sym (first_versions-set_state now k s d.models);
}

register-Keyed : (now : ℕ) (m : Model) (d : Database) → Keyed d → Keyed (register_model now m d).1
unfolding register_model
register-Keyed now m d h =
    let row : Model = record m { state = draft; created_at = now; updated_at = now } in
    let fits : (lacks_column row || conflicts row d.models) ≡ false
        → conflicts row d.models ≡ false =
      λ e. ground (arith, e) in
    if_elim (λ (r : Result IntegrityError Text × Database). Keyed r.1)
      (lacks_column row || conflicts row d.models) _ _ (λ e. h)
      (λ e.
        if_elim (λ (r : Result IntegrityError Text × Database). Keyed r.1)
          (row.model_path == no_text) _ _
          (λ none_given. record {
            free = append-Free row d.models h.free (fits e);
            versions = h.versions ∙ sym (first_versions-append_pathless row d.models none_given);
          })
          (λ given. record {
            free = append-Free row d.models h.free (fits e);
            versions =
                ap (λ vs. vs ++ first_version row ∷ []) h.versions
                ∙ sym (first_versions-append_with_path row d.models given);
          }))

step-Keyed : (c : Call) (d : Database) → Keyed d → Keyed (step d c)
unfolding step add_validation add_benchmark
step-Keyed (registers now m) d h = register-Keyed now m d h
step-Keyed (validates now v) d h =
    if_elim Keyed v.passed _ _
      (λ e.
        update-Keyed now v.model_id approved _ (record { free = h.free; versions = h.versions }))
      (λ e. record { free = h.free; versions = h.versions })
step-Keyed (measures b) d h = record { free = h.free; versions = h.versions }
step-Keyed (updates_state now k s) d h = update-Keyed now k s d h

run-Keyed : (cs : List Call) (d : Database) → Keyed d → Keyed (run d cs)
unfolding run
run-Keyed [] d h = h
run-Keyed (c ∷ cs) d h = run-Keyed cs (step d c) (step-Keyed c d h)

find_version-other :
    (name version : Text) (m x : Model) (xs : List Model)
    → conflicts x xs ≡ false
    → find_version name version xs ≡ some m
    → (m.model_id == x.model_id) ≡ false
unfolding find_version
find_version-other name version m x [] u e = ground (arith, e)
find_version-other name version m x (y ∷ xs) u e =
    elim (Bool-cases (name == y.name && version == y.version)) [
      | inl q ↦
          let found : some y ≡ some m = rw q at e in
          let same : y ≡ m = ground (arith, found) in
          subst (λ z. (z.model_id == x.model_id) ≡ false) same (ground (arith, u))
      | inr q ↦
          let later : find_version name version xs ≡ some m = rw q at e in
          find_version-other name version m x xs (ground (arith, u)) later
    ]

-- A row that is found by its name and version is the first with its id.
find_version-find_model :
    (name version : Text) (m : Model) (xs : List Model)
    → Free xs
    → find_version name version xs ≡ some m
    → find_model m.model_id xs ≡ some m
unfolding find_version find_model
find_version-find_model name version m [] u e = ground (arith, e)
find_version-find_model name version m (x ∷ xs) u e =
    elim (Bool-cases (name == x.name && version == x.version)) [
      | inl q ↦
          let found : some x ≡ some m = rw q at e in
          let same : x ≡ m = ground (arith, found) in
          subst (λ z. find_model z.model_id (x ∷ xs) ≡ some z) same (ground arith)
      | inr q ↦
          let later : find_version name version xs ≡ some m = rw q at e in
          rw (find_version-other name version m x xs u.0 later)
            (find_version-find_model name version m xs u.1 later)
    ]

-- After any calls on a new database, also those that raise, no two models have the same id or the
-- same name and version; the rows of model_versions are those of the models with a path, in their
-- order, each with the id, version, path, time and author of its model, as a draft; and a model
-- that is found by its name and version is the one that is found by its id.
pub run-Unique :
    (cs : List Call) (name version : Text) (m : Model)
    → get_model_by_name_version name version (run initialize cs) ≡ some m
    → Unique (run initialize cs).models
      × ((run initialize cs).model_versions ≡ first_versions (run initialize cs).models)
      × (get_model m.model_id (run initialize cs) ≡ some m)
unfolding get_model get_model_by_name_version
run-Unique cs name version m e =
    let h : Keyed (run initialize cs) =
      run-Keyed cs initialize (record { free = tt; versions = refl }) in
    (
      Free-Unique (run initialize cs).models h.free,
      h.versions,
      find_version-find_model name version m _ h.free e,
    )

find_model-set_state :
    (now : ℕ) (j k : Text) (s : ModelState) (m : Model) (xs : List Model)
    → find_model j xs ≡ some m
    → find_model j (set_state now k s xs)
      ≡ some (if j == k then record m { state = s; updated_at = now } else m)
unfolding find_model set_state
find_model-set_state now j k s m [] e = ground (arith, e)
find_model-set_state now j k s m (x ∷ xs) e = elim (Bool-cases (j == x.model_id)) [
  | inl q ↦
      let found : some x ≡ some m = rw q at e in
      let same : x ≡ m = ground (arith, found) in
      subst
        (λ z.
          find_model j (set_state now k s (x ∷ xs))
          ≡ some (if j == k then record z { state = s; updated_at = now } else z))
        same (ground (arith, q))
  | inr q ↦
      let later : find_model j xs ≡ some m = rw q at e in
      let ih = find_model-set_state now j k s m xs later in
      if_elim
        (λ (z : Model).
          (if j == z.model_id then some z else find_model j (set_state now k s xs))
          ≡ some (if j == k then record m { state = s; updated_at = now } else m))
        (x.model_id == k) (record x { state = s; updated_at = now }) x (λ f. rw q ih) (λ f. rw q ih)
]

-- A validation that has passed approves its model, whatever state it was in, also one that was
-- rejected or archived; it changes no other model, and one that has not passed changes none.
add_validation-approves :
    (now : ℕ) (v : Validation) (d : Database) (j : Text) (m : Model)
    → get_model j d ≡ some m
    → get_model j (add_validation now v d).1
      ≡ some (
          if v.passed && (j == v.model_id)
          then record m { state = approved; updated_at = now }
          else m)
unfolding add_validation get_model update_model_state
add_validation-approves now v d j m e = elim (Bool-cases v.passed) [
  | inl p ↦ rw p (find_model-set_state now j v.model_id approved m d.models e)
  | inr p ↦ rw p e
]
