-- ===== src/Registry/Models/Tests.antt =====
-- The theorems on core/registry/model_registry.py at two models, of which one is archived.
use ai_inference_chain.Prelude.{ℕ, ◌≡◌, refl, true, some, List, [], ◌∷◌}
use ai_inference_chain.Prelude.Int.{pos}
use ai_inference_chain.Blockchain.Constants.{no_text}
use ai_inference_chain.Registry.Models.{
  Model, draft, archived, Validation, initialize, register_model, get_model,
  get_model_by_name_version, find_version, set_state, update_model_state,
}
use ai_inference_chain.Registry.Models.Keys.{Call, registers, updates_state, run, step, run-Unique}
use ai_inference_chain.Registry.Models.Unique.{Unique}
use ai_inference_chain.Registry.Models.Versions.{first_versions}

abbrev model : ℕ → ℕ → Model
model k version = record {
  model_id = k;
  name = 31;
  author = 32;
  version = version;
  framework = 33;
  input_shape = 34;
  output_shape = 35;
  state = draft;
  created_at = 0;
  updated_at = 0;
  description = 1;
  min_accuracy = pos 0;
  max_latency_ms = pos 1000000;
  max_size_mb = pos 1000000;
  model_path = 1;
  metadata = 0;
}

abbrev check : Validation
check = record {
  validation_id = 0;
  model_id = 21;
  validator_id = 41;
  timestamp = 5;
  passed = true;
  checks_passed = 5;
  checks_total = 5;
  errors = [];
  warnings = [];
  tx_hash = 0;
}

-- The third call raises, as its name and version are taken, and so does the fourth, which has no path.
abbrev calls : List Call
calls =
    registers 1 (model 21 51)
    ∷ registers 2 (model 22 52)
    ∷ registers 3 (model 23 52)
    ∷ registers 3 (record (model 23 53) { model_path = no_text })
    ∷ updates_state 4 21 archived
    ∷ []

abbrev archived_model : Model
archived_model = record (model 21 51) { state = archived; created_at = 1; updated_at = 4 }

run-Unique_example :
    Unique (run initialize calls).models
    × ((run initialize calls).model_versions ≡ first_versions (run initialize calls).models)
    × (get_model 21 (run initialize calls) ≡ some archived_model)
unfolding run step register_model get_model get_model_by_name_version find_version set_state
    update_model_state
run-Unique_example = run-Unique calls 31 51 archived_model refl
