-- ===== src/Registry/Validators/Tests.antt =====
-- The theorems on the registry of validators at concrete inputs.
use ai_inference_chain.Prelude.{◌+◌, ◌-◌, ap, ok, arith, ◌≡◌, refl, true, none, some, List, [], ◌∷◌}
use ai_inference_chain.Prelude.Int.{pos}
use ai_inference_chain.Prelude.Dict.{lookup}
use ai_inference_chain.Registry.Validators.{
  Registry, ValidatorInfo, ValidatorStatus, RegistrationRequest, new_registry, get_validator,
  slash_validator, register_validator, validate_request,
}
use ai_inference_chain.Registry.Validators.Codec.{Dates, export_state, import_state}
use ai_inference_chain.Registry.Validators.Restore.{IsDates, import_state-export_state}
use ai_inference_chain.Registry.Validators.Calls.{
  RegistryCall, registers, slashes, registry_run, registry_step,
}

abbrev validator : ValidatorInfo
validator = record {
  validator_id = 7;
  address = 20;
  name = 21;
  email = 22;
  stake = pos 32000;
  status = ValidatorStatus.pending;
  joined_at = 0;
  last_heartbeat = none;
  models_validated = 0;
  blocks_proposed = 0;
  slashes_received = 0;
  rewards_earned = pos 0;
  penalties_paid = pos 0;
  metadata = 0;
}

abbrev registry : Registry
registry = record {
  min_stake = pos 32000;
  validators = (7, validator) ∷ [];
  address_index = (20, 7) ∷ [];
  stake_history = [];
}

found : get_validator 7 registry ≡ some validator
unfolding get_validator
found = refl

-- Datetimes whose texts count from 200.
abbrev counted : Dates
counted = record { isoformat = λ t. t + 200; fromisoformat = λ x. some (x - 200) }

counted-IsDates : IsDates counted
counted-IsDates = record {
  read_back = λ t. ap some (let e : t + 200 - 200 ≡ t = omega arith in e);
  some_text = λ t. ground arith;
}

import_state-export_state_example :
    let (result, s) = import_state counted (export_state counted registry) (new_registry (pos 1)) in
    (result ≡ ok tt)
    × (s.min_stake ≡ registry.min_stake)
    × (get_validator 7 s ≡ get_validator 7 registry)
import_state-export_state_example =
    import_state-export_state counted counted-IsDates registry (pos 1) 7 (tt, tt)

abbrev request : RegistrationRequest
request = record { address = 20; name = 21; email = 22; stake_amount = pos 32000; metadata = 0 }

abbrev calls : List RegistryCall
calls = registers 0 7 request ∷ slashes 7 (pos 1000) ∷ []

indexed :
    lookup 20 (registry_run (λ e. true) calls (new_registry (pos 32000))).address_index ≡ some 7
unfolding registry_run registry_step register_validator validate_request new_registry
    slash_validator
indexed = refl

first_is_new : lookup 7 (new_registry (pos 32000)).validators ≡ none
unfolding new_registry
first_is_new = refl
