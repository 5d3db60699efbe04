-- ===== src/Registry/Validators/Calls.antt =====
-- Sequences of calls of core/registry/validator_registry.py, and what they keep. A call that raises
-- leaves the registry as it was.
use ai_inference_chain.Prelude.{
  ℕ, ◌≡◌, refl, subst, inl, inr, Bool, true, Bool-cases, none, some, List, [], ◌∷◌, Result, ok, err,
  arith, ◌==◌, All,
}
use ai_inference_chain.Prelude.Dict.{Dict, lookup}
use ai_inference_chain.Blockchain.Constants.{Text, Amount, is_truthy}
use ai_inference_chain.Registry.Validators.{
  Registry, ValidatorInfo, RegistrationRequest, RegistryError, new_registry, register_validator,
  confirm_stake, slash_validator, slash, deactivate_validator, reactivate_validator, reactivate,
  update_heartbeat, add_reward, increment_models_validated, increment_blocks_proposed,
  get_validator_by_address,
}
use ai_inference_chain.Registry.Validators.Lookups.{
  Indexed, IsListed, change-Indexed, register-Indexed, confirm-Indexed,
}

-- `registers now id request` is a call at which `uuid4` draws the id.
pub data RegistryCall : Type 0 where
  registers : ℕ → Text → RegistrationRequest → RegistryCall
  confirms : ℕ → Text → Text → RegistryCall
  slashes rewards : Text → Amount → RegistryCall
  deactivates validates proposes : Text → RegistryCall
  reactivates beats : ℕ → Text → RegistryCall

-- The registry after a call, with the one before where it raises.
abbrev pub after : Registry → Result RegistryError (ValidatorInfo × Registry) → Registry
after r (ok (v, r')) = r'
after r (err e) = r

module _ (has_at : Text → Bool) where
  unfoldable pub registry_step : RegistryCall → Registry → Registry
  registry_step (registers now k q) r = after r (register_validator has_at now k q r)
  registry_step (confirms now k tx) r = after r (confirm_stake now k tx r)
  registry_step (slashes k x) r = slash_validator k x r
  registry_step (rewards k x) r = add_reward k x r
  registry_step (deactivates k) r = deactivate_validator k r
  registry_step (validates k) r = increment_models_validated k r
  registry_step (proposes k) r = increment_blocks_proposed k r
  registry_step (reactivates now k) r = reactivate_validator now k r
  registry_step (beats now k) r = update_heartbeat now k r

  unfoldable pub registry_run : List RegistryCall → Registry → Registry
  registry_run [] r = r
  registry_run (c ∷ cs) r = registry_run cs (registry_step c r)

  -- `uuid4` draws an id that no validator has.
  abbrev pub IsNew : RegistryCall → Registry → Type 0
  IsNew (registers now k q) r = lookup k r.validators ≡ none
  IsNew _ r = Unit {0}

  abbrev pub AllNew : List RegistryCall → Registry → Type 0
  AllNew [] r = Unit {0}
  AllNew (c ∷ cs) r = IsNew c r × AllNew cs (registry_step c r)

  after-Indexed :
      (r : Registry) (o : Result RegistryError (ValidatorInfo × Registry))
      → ((v : ValidatorInfo) → (r' : Registry) → o ≡ ok (v, r') → Indexed r')
      → Indexed r
      → Indexed (after r o)
  after-Indexed r (ok (v, r')) h i = h v r' refl
  after-Indexed r (err e) h i = i

  registry_step-Indexed :
      (c : RegistryCall) (r : Registry) → IsNew c r → Indexed r → Indexed (registry_step c r)
  unfolding registry_step slash_validator add_reward deactivate_validator increment_models_validated
      increment_blocks_proposed reactivate_validator update_heartbeat reactivate slash
  registry_step-Indexed (registers now k q) r n i =
      after-Indexed r (register_validator has_at now k q r)
        (λ v r' e. register-Indexed has_at now k q r r' v n e i) i
  registry_step-Indexed (confirms now k tx) r n i =
      after-Indexed r (confirm_stake now k tx r) (λ v r' e. confirm-Indexed now k tx r r' v e i) i
  registry_step-Indexed (slashes k x) r n i =
      change-Indexed k (slash r.min_stake x) r (λ v. ground arith) i
  registry_step-Indexed (rewards k x) r n i = change-Indexed k _ r (λ v. refl) i
  registry_step-Indexed (deactivates k) r n i = change-Indexed k _ r (λ v. refl) i
  registry_step-Indexed (validates k) r n i = change-Indexed k _ r (λ v. refl) i
  registry_step-Indexed (proposes k) r n i = change-Indexed k _ r (λ v. refl) i
  registry_step-Indexed (reactivates now k) r n i =
      change-Indexed k (reactivate now) r (λ v. ground arith) i
  registry_step-Indexed (beats now k) r n i = change-Indexed k _ r (λ v. refl) i

  registry_run-Indexed :
      (cs : List RegistryCall) (r : Registry)
      → AllNew cs r
      → Indexed r
      → Indexed (registry_run cs r)
  unfolding registry_run
  registry_run-Indexed [] r n i = i
  registry_run-Indexed (c ∷ cs) r n i =
      registry_run-Indexed cs (registry_step c r) n.1 (registry_step-Indexed c r n.0 i)

  All-lookup :
      (P : Text × Text → Type 0) (a k : Text) (d : Dict Text)
      → All P d
      → lookup a d ≡ some k
      → P (a, k)
  All-lookup P a k [] h e = cc
  All-lookup P a k ((b, j) ∷ d) h e = elim (Bool-cases (a == b)) [
    | inl s ↦ subst (λ (x : Text × Text). P x) (ground (arith, e, s)) h.0
    | inr s ↦ All-lookup P a k d h.1 (ground (arith, e, s))
  ]

  -- Whatever has been done to a new registry, looking an address of the index up gives a validator
  -- with that address. Conditions: the ids that are drawn are new, and the address's is not empty.
  registry_run-by_address :
      (min_stake : Amount) (cs : List RegistryCall) (a k : Text)
      → AllNew cs (new_registry min_stake)
      → lookup a (registry_run cs (new_registry min_stake)).address_index ≡ some k
      → is_truthy k ≡ true
      → (v : ValidatorInfo) × (get_validator_by_address a (registry_run cs (new_registry min_stake))
          ≡ some v)
        × (v.address ≡ a)
  unfolding get_validator_by_address new_registry
  registry_run-by_address min_stake cs a k n e t =
      let r : Registry = registry_run cs (new_registry min_stake) in
      let (v, f, g) =
        All-lookup (IsListed r.validators) a k r.address_index
          (registry_run-Indexed cs (new_registry min_stake) n tt) e in
      (v, ground (arith, e, t, f), g)
