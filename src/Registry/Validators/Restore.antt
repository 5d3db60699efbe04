-- ===== src/Registry/Validators/Restore.antt =====
-- What `import_state` of core/registry/validator_registry.py restores of an exported registry.
use ai_inference_chain.Prelude.{
  ℕ, ◌>>=◌, ◌≡◌, ◌∙◌, refl, ap, true, Option, none, some, [], ◌∷◌, ok, err, arith,
}
use ai_inference_chain.Prelude.Dict.{
  Dict, lookup, insert, keys, IsDistinct, lookup-insert, lookup-Fresh,
}
use ai_inference_chain.Blockchain.Constants.{Text, Amount, is_truthy}
use ai_inference_chain.Registry.Validators.{
  Registry, ValidatorInfo, ValidatorStatus, no_history, new_registry, confirm_stake, confirm_found,
  history_of, get_validator,
}
use ai_inference_chain.Registry.Validators.Codec.{
  Dates, status_value, status_of_value, date_of, heartbeat_value, heartbeat_of, validator_to_dict,
  validator_from_dict, export_validators, export_state, import_validators, import_state,
}

-- What is documented of datetimes: the text of one is not empty, and is read back as it.
pub record IsDates (dt : Dates) : Type 0 where
  pub read_back : (t : ℕ) → dt.fromisoformat (dt.isoformat t) ≡ some t
  pub some_text : (t : ℕ) → is_truthy (dt.isoformat t) ≡ true

status_of_value-status_value : (t : ValidatorStatus) → status_of_value (status_value t) ≡ ok t
status_of_value-status_value ValidatorStatus.pending = refl
status_of_value-status_value ValidatorStatus.active = refl
status_of_value-status_value ValidatorStatus.inactive = refl
status_of_value-status_value ValidatorStatus.slashed = refl
status_of_value-status_value ValidatorStatus.exiting = refl

-- The registry with the validators, as `import_state` puts them in.
unfoldable restore : Dict ValidatorInfo → Registry → Registry
restore [] r = r
restore ((k, v) ∷ d) r = restore d (record r {
  validators = insert k v r.validators;
  address_index = insert v.address k r.address_index;
})

lookup-restore :
    (k : Text) (d : Dict ValidatorInfo) (r : Registry)
    → IsDistinct (keys d)
    → lookup k (restore d r).validators
      ≡ elim (lookup k d) [ none ↦ lookup k r.validators | some v ↦ some v ]
unfolding restore
lookup-restore k [] r h = refl
lookup-restore k ((j, v) ∷ d) r h =
    lookup-restore k d _ h.1
    ∙ ground (arith, lookup-insert k j v r.validators, lookup-Fresh j d h.0)

history-restore :
    (d : Dict ValidatorInfo) (r : Registry) → (restore d r).stake_history ≡ r.stake_history
unfolding restore
history-restore [] r = refl
history-restore ((j, v) ∷ d) r = history-restore d _

min_stake-restore : (d : Dict ValidatorInfo) (r : Registry) → (restore d r).min_stake ≡ r.min_stake
unfolding restore
min_stake-restore [] r = refl
min_stake-restore ((j, v) ∷ d) r = min_stake-restore d _

module _ (dt : Dates) (dates : IsDates dt) where
  date_of-isoformat : (t : ℕ) → date_of dt (dt.isoformat t) ≡ ok t
  date_of-isoformat t = rw (dates.read_back t, date_of) refl

  heartbeat_of-heartbeat_value : (x : Option ℕ) → heartbeat_of dt (heartbeat_value dt x) ≡ ok x
  heartbeat_of-heartbeat_value none = refl
  heartbeat_of-heartbeat_value (some t) = rw (dates.some_text t, date_of-isoformat t, ◌>>=◌) refl

  validator_from_dict-to_dict :
      (v : ValidatorInfo) → validator_from_dict dt (validator_to_dict dt v) ≡ ok v
  unfolding validator_from_dict validator_to_dict
  validator_from_dict-to_dict v =
      rw
        (
          status_of_value-status_value v.status,
          date_of-isoformat v.joined_at,
          ◌>>=◌,
          heartbeat_of-heartbeat_value v.last_heartbeat,
        )
        refl

  import_validators-export_validators :
      (d : Dict ValidatorInfo) (r : Registry)
      → import_validators dt (export_validators dt d) r ≡ (ok tt, restore d r)
  unfolding import_validators export_validators restore
  import_validators-export_validators [] r = refl
  import_validators-export_validators ((k, v) ∷ d) r =
      rw (validator_from_dict-to_dict v, import_validators)
        (import_validators-export_validators d _)

  import_state-restore :
      (r s : Registry)
      → import_state dt (export_state dt r) s
        ≡ (ok tt, restore r.validators (record s { min_stake = r.min_stake }))
  unfolding import_state export_state
  import_state-restore r s = import_validators-export_validators r.validators _

  -- What `export_state` of a registry wrote, `import_state` reads into a new one without an error:
  -- each validator is back by its id, with all its fields, and so is the least stake. Conditions: the
  -- validators are a dict, with no key twice; and the text of a datetime is not empty and is read
  -- back as that datetime.
  pub import_state-export_state :
      (r : Registry) (n : Amount) (k : Text)
      → IsDistinct (keys r.validators)
      → let (result, s) = import_state dt (export_state dt r) (new_registry n) in
        (result ≡ ok tt) × (s.min_stake ≡ r.min_stake) × (get_validator k s ≡ get_validator k r)
  unfolding get_validator new_registry
  import_state-export_state r n k h =
      let e = import_state-restore r (new_registry n) in
      let empty : Registry = record (new_registry n) { min_stake = r.min_stake } in
      (
        ap (λ x. x.0) e,
        ap (λ x. x.1.min_stake) e ∙ min_stake-restore r.validators empty,
        ap (λ x. lookup k x.1.validators) e ∙ lookup-restore k r.validators empty h ∙ ground arith,
      )

  -- The stake histories are exported and never imported: in a restored registry, confirming the
  -- stake of a pending validator raises, whatever its stake.
  confirm_stake-restored :
      (r : Registry) (n : Amount) (now : ℕ) (k tx : Text) (v : ValidatorInfo)
      → IsDistinct (keys r.validators)
      → get_validator k r ≡ some v
      → v.status ≡ ValidatorStatus.pending
      → confirm_stake now k tx (import_state dt (export_state dt r) (new_registry n)).1
        ≡ err no_history
  unfolding confirm_stake confirm_found history_of new_registry get_validator
  confirm_stake-restored r n now k tx v h e p =
      let empty : Registry = record (new_registry n) { min_stake = r.min_stake } in
      let found : lookup k (restore r.validators empty).validators ≡ some v =
        lookup-restore k r.validators empty h ∙ ground (arith, e) in
      let lost : (restore r.validators empty).stake_history ≡ [] =
        history-restore r.validators empty in
      ap (λ x. confirm_stake now k tx x.1) (import_state-restore r (new_registry n))
      ∙ ground (arith, found, lost, p)
