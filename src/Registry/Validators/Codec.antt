-- ===== src/Registry/Validators/Codec.antt =====
-- `to_dict`, `export_state` and `import_state` of core/registry/validator_registry.py. `isoformat` and
-- `fromisoformat` of the library's datetimes are the parameter `Dates`. Of a value with another type
-- than `to_dict` writes, this says only `ill_typed`, as core/blockchain's codec here does.
use ai_inference_chain.Prelude.{
  ℕ, Option, none, some, List, [], ◌∷◌, map, Result, ok, err, ◌>>=◌, if◌then◌else◌, ◌==◌,
}
use ai_inference_chain.Prelude.Dict.{Dict, insert}
use ai_inference_chain.Blockchain.Constants.{Text, Amount, no_text, is_truthy}
use ai_inference_chain.Blockchain.Codec.Json.{
  Json, CodecError, unknown_member, at, as_text, as_nat, as_number, as_blob,
}
use ai_inference_chain.Registry.Validators.{
  Registry, ValidatorInfo, ValidatorStake, ValidatorStatus,
}

-- `fromisoformat` raises a ValueError where it gives none.
pub record Dates : Type 0 where
  pub isoformat : ℕ → Text
  pub fromisoformat : Text → Option ℕ

abbrev pub validator_id_key : ℕ
validator_id_key = 0

abbrev pub address_key : ℕ
address_key = 1

abbrev pub name_key : ℕ
name_key = 2

abbrev pub email_key : ℕ
email_key = 3

abbrev pub stake_key : ℕ
stake_key = 4

abbrev pub status_key : ℕ
status_key = 5

abbrev pub joined_at_key : ℕ
joined_at_key = 6

abbrev pub last_heartbeat_key : ℕ
last_heartbeat_key = 7

abbrev pub models_validated_key : ℕ
models_validated_key = 8

abbrev pub blocks_proposed_key : ℕ
blocks_proposed_key = 9

abbrev pub slashes_received_key : ℕ
slashes_received_key = 10

abbrev pub rewards_earned_key : ℕ
rewards_earned_key = 11

abbrev pub penalties_paid_key : ℕ
penalties_paid_key = 12

abbrev pub metadata_key : ℕ
metadata_key = 13

abbrev pub amount_key : ℕ
amount_key = 14

abbrev pub timestamp_key : ℕ
timestamp_key = 15

abbrev pub tx_hash_key : ℕ
tx_hash_key = 16

abbrev pub confirmed_key : ℕ
confirmed_key = 17

-- `status.value`, and `ValidatorStatus(value)`
abbrev pub status_value : ValidatorStatus → Text
status_value ValidatorStatus.pending = 100
status_value ValidatorStatus.active = 101
status_value ValidatorStatus.inactive = 102
status_value ValidatorStatus.slashed = 103
status_value ValidatorStatus.exiting = 104

abbrev pub status_of_value : Text → Result CodecError ValidatorStatus
status_of_value x =
    if x == 100
    then ok ValidatorStatus.pending
    else if x == 101
    then ok ValidatorStatus.active
    else if x == 102
    then ok ValidatorStatus.inactive
    else if x == 103
    then ok ValidatorStatus.slashed
    else if x == 104
    then ok ValidatorStatus.exiting
    else err unknown_member

-- What `export_state` returns. In what `import_state` is given, the limit and the validators may be
-- missing.
pub record ExportedState : Type 0 where
  pub min_stake : Option Amount
  pub validators : Option (Dict (Dict Json))
  pub stake_history : Dict (List (Dict Json))

module _ (dt : Dates) where
  open dt use {isoformat, fromisoformat}

  -- `x.isoformat() if x else None`
  abbrev pub heartbeat_value : Option ℕ → Text
  heartbeat_value none = no_text
  heartbeat_value (some t) = isoformat t

  -- `ValidatorStake.to_dict`
  unfoldable pub stake_to_dict : ValidatorStake → Dict Json
  stake_to_dict s =
      (amount_key, Json.number s.amount)
      ∷ (timestamp_key, Json.text (isoformat s.timestamp))
      ∷ (tx_hash_key, Json.text s.tx_hash)
      ∷ (confirmed_key, Json.flag s.confirmed)
      ∷ []

  -- `ValidatorInfo.to_dict`
  unfoldable pub validator_to_dict : ValidatorInfo → Dict Json
  validator_to_dict v =
      (validator_id_key, Json.text v.validator_id)
      ∷ (address_key, Json.text v.address)
      ∷ (name_key, Json.text v.name)
      ∷ (email_key, Json.text v.email)
      ∷ (stake_key, Json.number v.stake)
      ∷ (status_key, Json.text (status_value v.status))
      ∷ (joined_at_key, Json.text (isoformat v.joined_at))
      ∷ (last_heartbeat_key, Json.text (heartbeat_value v.last_heartbeat))
      ∷ (models_validated_key, Json.nat v.models_validated)
      ∷ (blocks_proposed_key, Json.nat v.blocks_proposed)
      ∷ (slashes_received_key, Json.nat v.slashes_received)
      ∷ (rewards_earned_key, Json.number v.rewards_earned)
      ∷ (penalties_paid_key, Json.number v.penalties_paid)
      ∷ (metadata_key, Json.blob v.metadata)
      ∷ []

  -- `datetime.fromisoformat(x)`
  abbrev pub date_of : Text → Result CodecError ℕ
  date_of x = elim (fromisoformat x) [ none ↦ err unknown_member | some t ↦ ok t ]

  -- `datetime.fromisoformat(x) if x else None`
  abbrev pub heartbeat_of : Text → Result CodecError (Option ℕ)
  heartbeat_of x = if is_truthy x then date_of x >>= (λ t. ok (some t)) else ok none

  -- The ValidatorInfo that `import_state` makes of a dict.
  unfoldable pub validator_from_dict : Dict Json → Result CodecError ValidatorInfo
  validator_from_dict d = do
    validator_id ← at validator_id_key d >>= as_text
    address ← at address_key d >>= as_text
    name ← at name_key d >>= as_text
    email ← at email_key d >>= as_text
    stake ← at stake_key d >>= as_number
    status ← at status_key d >>= as_text >>= status_of_value
    joined_at ← at joined_at_key d >>= as_text >>= date_of
    last_heartbeat ← at last_heartbeat_key d >>= as_text >>= heartbeat_of
    models_validated ← at models_validated_key d >>= as_nat
    blocks_proposed ← at blocks_proposed_key d >>= as_nat
    slashes_received ← at slashes_received_key d >>= as_nat
    rewards_earned ← at rewards_earned_key d >>= as_number
    penalties_paid ← at penalties_paid_key d >>= as_number
    metadata ← at metadata_key d >>= as_blob
    ok (record {
      validator_id = validator_id;
      address = address;
      name = name;
      email = email;
      stake = stake;
      status = status;
      joined_at = joined_at;
      last_heartbeat = last_heartbeat;
      models_validated = models_validated;
      blocks_proposed = blocks_proposed;
      slashes_received = slashes_received;
      rewards_earned = rewards_earned;
      penalties_paid = penalties_paid;
      metadata = metadata;
    })

  -- `{vid: v.to_dict() for vid, v in …}`
  unfoldable pub export_validators : Dict ValidatorInfo → Dict (Dict Json)
  unfolding validator_to_dict
  export_validators [] = []
  export_validators ((k, v) ∷ d) = (k, validator_to_dict v) ∷ export_validators d

  unfoldable pub export_histories : Dict (List ValidatorStake) → Dict (List (Dict Json))
  unfolding stake_to_dict
  export_histories [] = []
  export_histories ((k, ss) ∷ d) = (k, map stake_to_dict ss) ∷ export_histories d

  unfoldable pub export_state : Registry → ExportedState
  unfolding export_validators export_histories
  export_state r = record {
    min_stake = some r.min_stake;
    validators = some (export_validators r.validators);
    stake_history = export_histories r.stake_history;
  }

  -- The loop of `import_state`. A validator that cannot be read ends it, with those before it
  -- restored. No stake history is read.
  unfoldable pub import_validators :
      Dict (Dict Json) → Registry → Result CodecError (Unit {0}) × Registry
  unfolding validator_from_dict
  import_validators [] r = (ok tt, r)
  import_validators ((k, x) ∷ d) r = elim (validator_from_dict x) [
    | err e ↦ (err e, r)
    | ok v ↦ import_validators d (record r {
      validators = insert k v r.validators;
      address_index = insert v.address k r.address_index;
    })
  ]

  unfoldable pub import_state : ExportedState → Registry → Result CodecError (Unit {0}) × Registry
  unfolding import_validators
  import_state x r =
      let n : Amount = elim x.min_stake [ none ↦ r.min_stake | some n ↦ n ] in
      import_validators (elim x.validators [ none ↦ [] | some d ↦ d ]) (record r { min_stake = n })
