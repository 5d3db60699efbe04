-- ===== src/Registry/Models.antt =====
-- core/registry/model_registry.py: the tables of its database as lists of rows in the order of their
-- insertion, and the SQL of each method as what it does to them. Times are whole milliseconds. SQLite
-- does not enforce foreign keys unless it is told to, and it is not told to. Of rows with the same
-- time, ORDER BY gives the first inserted first here. The text None is `no_text`; ids are never None.
pub mod Unique
pub mod Versions
pub mod Keys
mod Tests
use ai_inference_chain.Prelude.{
  ℕ, suc, ◌+◌, Bool, true, false, ◌&&◌, ◌||◌, Option, none, some, List, [], ◌∷◌, ◌++◌, length, take,
  keep, map, leb, ltb, ◌==◌, if◌then◌else◌, Result, ok, err,
}
use ai_inference_chain.Prelude.Dict.{Dict, insert, get_or}
use ai_inference_chain.Blockchain.Constants.{Text, Amount, Blob, no_text}

pub data ModelState : Type 0 where
  draft validating approved rejected deprecated archived : ModelState

abbrev pub same_state : ModelState → ModelState → Bool
same_state draft draft = true
same_state validating validating = true
same_state approved approved = true
same_state rejected rejected = true
same_state deprecated deprecated = true
same_state archived archived = true
same_state s t = false

-- The table models. The limits are in thousandths.
pub record Model : Type 0 where
  pub model_id : Text
  pub name : Text
  pub author : Text
  pub version : Text
  pub framework : Text
  pub input_shape : Text
  pub output_shape : Text
  pub state : ModelState
  pub created_at : ℕ
  pub updated_at : ℕ
  pub description : Text
  pub min_accuracy : Amount
  pub max_latency_ms : Amount
  pub max_size_mb : Amount
  pub model_path : Text
  pub metadata : Blob

-- The table model_versions; a row's id is its place.
pub record ModelVersion : Type 0 where
  pub model_id : Text
  pub version : Text
  pub model_path : Text
  pub state : ModelState
  pub created_at : ℕ
  pub created_by : Text

pub record Validation : Type 0 where
  pub validation_id : ℕ
  pub model_id : Text
  pub validator_id : Text
  pub timestamp : ℕ
  pub passed : Bool
  pub checks_passed : ℕ
  pub checks_total : ℕ
  pub errors : List Text
  pub warnings : List Text
  pub tx_hash : Text

pub record Benchmark : Type 0 where
  pub benchmark_id : ℕ
  pub model_id : Text
  pub validator_id : Text
  pub timestamp : ℕ
  pub inference_time_ms : Amount
  pub accuracy : Amount
  pub cost : Amount
  pub notes : Text

pub record Database : Type 0 where
  pub models : List Model
  pub model_versions : List ModelVersion
  pub validations : List Validation
  pub benchmarks : List Benchmark

-- `initialize` of a new file
abbrev pub initialize : Database
initialize = record { models = []; model_versions = []; validations = []; benchmarks = [] }

-- What a violated PRIMARY KEY, UNIQUE or NOT NULL raises.
pub data IntegrityError : Type 0 where
  integrity_error : IntegrityError

-- The row breaks PRIMARY KEY (model_id) or UNIQUE (name, version).
abbrev pub conflicts : Model → List Model → Bool
conflicts m [] = false
conflicts m (x ∷ xs) =
    if m.model_id == x.model_id || (m.name == x.name && m.version == x.version)
    then true
    else conflicts m xs

-- The first version of a model.
abbrev pub version_of : Model → ModelVersion
version_of m = record {
  model_id = m.model_id;
  version = m.version;
  model_path = m.model_path;
  state = draft;
  created_at = m.created_at;
  created_by = m.author;
}

-- The row breaks a NOT NULL of the table models.
abbrev pub lacks_column : Model → Bool
lacks_column m =
    m.name == no_text
    || (m.author == no_text)
    || (m.version == no_text)
    || (m.framework == no_text)
    || (m.input_shape == no_text)
    || (m.output_shape == no_text)

-- `register_model`: the arguments are the fields of the row, whose state and times are set here. With
-- the path None the second INSERT breaks the NOT NULL of model_versions, and the first one stays:
-- there is no rollback, and the connection, whose view this is, goes on with the row.
unfoldable pub register_model : ℕ → Model → Database → Result IntegrityError Text × Database
register_model now m d =
    let row : Model = record m { state = draft; created_at = now; updated_at = now } in
    if lacks_column row || conflicts row d.models
    then (err integrity_error, d)
    else (let d' : Database = record d { models = d.models ++ row ∷ [] } in
        if row.model_path == no_text then (err integrity_error, d') else (
          ok m.model_id,
          record d' { model_versions = d'.model_versions ++ version_of row ∷ [] },
        ))

-- `SELECT … WHERE model_id = ?`, at most one row
unfoldable pub find_model : Text → List Model → Option Model
find_model k [] = none
find_model k (x ∷ xs) = if k == x.model_id then some x else find_model k xs

unfoldable pub get_model : Text → Database → Option Model
unfolding find_model
get_model k d = find_model k d.models

unfoldable pub find_version : Text → Text → List Model → Option Model
find_version name version [] = none
find_version name version (x ∷ xs) =
    if name == x.name && version == x.version then some x else find_version name version xs

unfoldable pub get_model_by_name_version : Text → Text → Database → Option Model
unfolding find_version
get_model_by_name_version name version d = find_version name version d.models

-- `ORDER BY … DESC`
unfoldable pub place_row {ℓ} : {A : Type ℓ} → (A → ℕ) → A → List A → List A
place_row time x [] = x ∷ []
place_row time x (y ∷ ys) = if ltb (time x) (time y) then y ∷ place_row time x ys else x ∷ y ∷ ys

unfoldable pub newest_first {ℓ} : {A : Type ℓ} → (A → ℕ) → List A → List A
unfolding place_row
newest_first time [] = []
newest_first time (x ∷ xs) = place_row time x (newest_first time xs)

unfoldable pub get_models_by_author : Text → Database → List Model
unfolding newest_first
get_models_by_author author d =
    newest_first (λ m. m.created_at) (keep (λ m. author == m.author) d.models)

unfoldable pub get_models_by_state : ModelState → Database → List Model
unfolding newest_first
get_models_by_state s d =
    newest_first (λ m. m.created_at) (keep (λ m. same_state s m.state) d.models)

unfoldable pub get_approved_models : Database → List Model
unfolding get_models_by_state
get_approved_models d = get_models_by_state approved d

-- `UPDATE models SET state = ?, updated_at = ? WHERE model_id = ?`
unfoldable pub set_state : ℕ → Text → ModelState → List Model → List Model
set_state now k s [] = []
set_state now k s (x ∷ xs) =
    (if x.model_id == k then record x { state = s; updated_at = now } else x) ∷ set_state now k s xs

unfoldable pub update_model_state : ℕ → Text → ModelState → Database → Database
unfolding set_state
update_model_state now k s d = record d { models = set_state now k s d.models }

-- `add_validation` of a row without its id, which AUTOINCREMENT gives; `now` is the time of the update.
unfoldable pub add_validation : ℕ → Validation → Database → ℕ × Database
unfolding update_model_state
add_validation now v d =
    let n : ℕ = length d.validations + 1 in
    let d' : Database = record d {
      validations = d.validations ++ record v { validation_id = n } ∷ [];
    } in
    (n, if v.passed then update_model_state now v.model_id approved d' else d')

unfoldable pub get_model_validations : Text → Database → List Validation
unfolding newest_first
get_model_validations k d =
    newest_first (λ v. v.timestamp) (keep (λ v. k == v.model_id) d.validations)

unfoldable pub add_benchmark : Benchmark → Database → ℕ × Database
add_benchmark b d =
    let n : ℕ = length d.benchmarks + 1 in
    (n, record d { benchmarks = d.benchmarks ++ record b { benchmark_id = n } ∷ [] })

unfoldable pub get_model_benchmarks : Text → Database → List Benchmark
unfolding newest_first
get_model_benchmarks k d =
    newest_first (λ b. b.timestamp) (keep (λ b. k == b.model_id) d.benchmarks)

unfoldable pub list_models : ℕ → Option ModelState → Database → List Model
unfolding get_models_by_state newest_first
list_models limit none d = take limit (newest_first (λ m. m.created_at) d.models)
list_models limit (some s) d = take limit (get_models_by_state s d)

unfoldable pub get_total_models : Database → ℕ
get_total_models d = length d.models

-- `COUNT(*) … GROUP BY framework`
unfoldable pub framework_counts : List Model → Dict ℕ
framework_counts [] = []
framework_counts (m ∷ ms) =
    let counts : Dict ℕ = framework_counts ms in
    insert m.framework (get_or m.framework counts 0 + 1) counts

-- A count of `GROUP BY state`, 0 where there is no such row
abbrev pub count_in_state : ModelState → Database → ℕ
count_in_state s d = length (keep (λ m. same_state s m.state) d.models)
