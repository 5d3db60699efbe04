-- ===== src/Registry/Validators.antt =====
-- core/registry/validator_registry.py. A new validator's id, which the code draws by `uuid4`, and
-- the time are arguments; whether a text has an "@" is a parameter. Stakes are thousandths.
pub mod Lifecycle
pub mod Lookups
pub mod Codec
pub mod Restore
pub mod Calls
mod Tests
use ai_inference_chain.Prelude.{
  ℕ, ◌+◌, Bool, true, false, not, ◌&&◌, ◌||◌, Option, none, some, List, [], ◌∷◌, Result, ok, err,
  ◌>>=◌, ◌>>◌, raise_if, if◌then◌else◌, length, take, keep, ◌==◌,
}
use ai_inference_chain.Prelude.Int.{ℤ, pos, ◌+ℤ◌, ◌-ℤ◌, ltb_ℤ, min_ℤ}
use ai_inference_chain.Prelude.Dict.{Dict, lookup, contains, insert, values}
use ai_inference_chain.Blockchain.Constants.{Text, Blob, Amount, no_text, is_truthy}

pub data ValidatorStatus : Type 0 where
  pending active inactive slashed exiting : ValidatorStatus

pub record ValidatorStake : Type 0 where
  pub amount : Amount
  pub timestamp : ℕ
  pub tx_hash : Text
  pub confirmed : Bool

pub record ValidatorInfo : Type 0 where
  pub validator_id : Text
  pub address : Text
  pub name : Text
  pub email : Text
  pub stake : Amount
  pub status : ValidatorStatus
  pub joined_at : ℕ
  pub last_heartbeat : Option ℕ
  pub models_validated : ℕ
  pub blocks_proposed : ℕ
  pub slashes_received : ℕ
  pub rewards_earned : Amount
  pub penalties_paid : Amount
  pub metadata : Blob

pub record RegistrationRequest : Type 0 where
  pub address : Text
  pub name : Text
  pub email : Text
  pub stake_amount : Amount
  pub metadata : Blob

-- The texts of the ValueErrors; `no_history` is the KeyError or IndexError of `stake_history`.
pub data RegistryError : Type 0 where
  no_address no_name bad_email low_stake already_registered : RegistryError
  not_found not_pending no_history : RegistryError

pub record Registry : Type 0 where
  pub min_stake : Amount
  pub validators : Dict ValidatorInfo
  pub address_index : Dict Text
  pub stake_history : Dict (List ValidatorStake)

-- `ValidatorRegistry(min_stake)`
unfoldable pub new_registry : Amount → Registry
new_registry n = record { min_stake = n; validators = []; address_index = []; stake_history = [] }

abbrev pub same_status : ValidatorStatus → ValidatorStatus → Bool
same_status ValidatorStatus.pending ValidatorStatus.pending = true
same_status ValidatorStatus.active ValidatorStatus.active = true
same_status ValidatorStatus.inactive ValidatorStatus.inactive = true
same_status ValidatorStatus.slashed ValidatorStatus.slashed = true
same_status ValidatorStatus.exiting ValidatorStatus.exiting = true
same_status _ _ = false

-- `RegistrationRequest.validate`; `has_at` is `"@" in email`
unfoldable pub validate_request :
    (Text → Bool) → Amount → RegistrationRequest → Result RegistryError (Unit {0})
validate_request has_at min_stake q = do
  raise_if (not (is_truthy q.address)) no_address
  raise_if (not (is_truthy q.name)) no_name
  raise_if (not (is_truthy q.email) || not (has_at q.email)) bad_email
  raise_if (ltb_ℤ q.stake_amount min_stake) low_stake

-- The validator of an accepted request.
abbrev pub pending_validator : ℕ → Text → RegistrationRequest → ValidatorInfo
pending_validator now new_id q = record {
  validator_id = new_id;
  address = q.address;
  name = q.name;
  email = q.email;
  stake = q.stake_amount;
  status = ValidatorStatus.pending;
  joined_at = now;
  last_heartbeat = none;
  models_validated = 0;
  blocks_proposed = 0;
  slashes_received = 0;
  rewards_earned = pos 0;
  penalties_paid = pos 0;
  metadata = q.metadata;
}

unfoldable pub register_validator :
    (Text → Bool)
    → ℕ
    → Text
    → RegistrationRequest
    → Registry
    → Result RegistryError (ValidatorInfo × Registry)
register_validator has_at now new_id q r = do
  validate_request has_at r.min_stake q
  raise_if (contains q.address r.address_index) already_registered
  ok (
    pending_validator now new_id q,
    record r {
      validators = insert new_id (pending_validator now new_id q) r.validators;
      address_index = insert q.address new_id r.address_index;
      stake_history =
          insert new_id
            (record {
              amount = q.stake_amount;
              timestamp = now;
              tx_hash = no_text;
              confirmed = false;
            }
              ∷ [])
            r.stake_history;
    },
  )

-- `latest_stake.confirmed = True; latest_stake.tx_hash = tx_hash`, for the last of the list
unfoldable pub confirm_last :
    Text → List ValidatorStake → Result RegistryError (List ValidatorStake)
confirm_last tx [] = err no_history
confirm_last tx (s ∷ []) = ok (record s { confirmed = true; tx_hash = tx } ∷ [])
confirm_last tx (s ∷ t ∷ ss) = confirm_last tx (t ∷ ss) >>= λ rest. ok (s ∷ rest)

-- `self.stake_history[validator_id]`
history_of : Text → Registry → Result RegistryError (List ValidatorStake)
history_of k r = elim (lookup k r.stake_history) [ none ↦ err no_history | some ss ↦ ok ss ]

-- `confirm_stake` for a validator that was found
unfoldable pub confirm_found :
    ℕ → Text → Text → ValidatorInfo → Registry → Result RegistryError (ValidatorInfo × Registry)
unfolding history_of confirm_last
confirm_found now k tx v r = do
  raise_if (not (same_status v.status ValidatorStatus.pending)) not_pending
  ss ← history_of k r >>= confirm_last tx
  let v' : ValidatorInfo = record v {
    status = ValidatorStatus.active;
    last_heartbeat = some now;
  } in
      ok (
        v',
        record r {
          validators = insert k v' r.validators;
          stake_history = insert k ss r.stake_history;
        },
      )

unfoldable pub confirm_stake :
    ℕ → Text → Text → Registry → Result RegistryError (ValidatorInfo × Registry)
unfolding confirm_found
confirm_stake now k tx r = elim (lookup k r.validators) [
  | none ↦ err not_found
  | some v ↦ confirm_found now k tx v r
]

unfoldable pub get_validator : Text → Registry → Option ValidatorInfo
get_validator k r = lookup k r.validators

unfoldable pub get_validator_by_address : Text → Registry → Option ValidatorInfo
get_validator_by_address a r = elim (lookup a r.address_index) [
  | none ↦ none
  | some k ↦ if is_truthy k then lookup k r.validators else none
]

unfoldable pub get_validators_by_status : ValidatorStatus → Registry → List ValidatorInfo
get_validators_by_status t r = keep (λ v. same_status v.status t) (values r.validators)

pub get_active_validators : Registry → List ValidatorInfo
unfolding get_validators_by_status
get_active_validators r = get_validators_by_status ValidatorStatus.active r

pub get_validator_count : Option ValidatorStatus → Registry → ℕ
get_validator_count none r = length r.validators
get_validator_count (some t) r = length (get_validators_by_status t r)

sum_stakes : List ValidatorInfo → Amount
sum_stakes [] = pos 0
sum_stakes (v ∷ vs) = v.stake +ℤ sum_stakes vs

pub get_total_stake : Registry → Amount
unfolding sum_stakes
get_total_stake r = sum_stakes (values r.validators)

pub get_active_stake : Registry → Amount
unfolding sum_stakes
get_active_stake r = sum_stakes (get_active_validators r)

-- A change of a validator that is there; with its absence nothing happens.
abbrev pub change : Text → (ValidatorInfo → ValidatorInfo) → Registry → Registry
change k f r = elim (lookup k r.validators) [
  | none ↦ r
  | some v ↦ record r { validators = insert k (f v) r.validators }
]

unfoldable pub update_heartbeat : ℕ → Text → Registry → Registry
update_heartbeat now k = change k (λ v. record v { last_heartbeat = some now })

unfoldable pub increment_models_validated : Text → Registry → Registry
increment_models_validated k =
    change k (λ v. record v { models_validated = v.models_validated + 1 })

unfoldable pub increment_blocks_proposed : Text → Registry → Registry
increment_blocks_proposed k = change k (λ v. record v { blocks_proposed = v.blocks_proposed + 1 })

unfoldable pub add_reward : Text → Amount → Registry → Registry
add_reward k x = change k (λ v. record v { rewards_earned = v.rewards_earned +ℤ x })

-- `slash_validator` for a validator that was found
unfoldable pub slash : Amount → Amount → ValidatorInfo → ValidatorInfo
slash min_stake x v =
    let taken : Amount = min_ℤ x v.stake in
    let v' : ValidatorInfo = record v {
      stake = v.stake -ℤ taken;
      penalties_paid = v.penalties_paid +ℤ taken;
      slashes_received = v.slashes_received + 1;
    } in
    if ltb_ℤ v'.stake min_stake then record v' { status = ValidatorStatus.slashed } else v'

unfoldable pub slash_validator : Text → Amount → Registry → Registry
slash_validator k x r = change k (slash r.min_stake x) r

unfoldable pub deactivate_validator : Text → Registry → Registry
deactivate_validator k = change k (λ v. record v { status = ValidatorStatus.inactive })

-- `reactivate_validator` for a validator that was found
unfoldable pub reactivate : ℕ → ValidatorInfo → ValidatorInfo
reactivate now v =
    if same_status v.status ValidatorStatus.inactive
    then record v { status = ValidatorStatus.active; last_heartbeat = some now }
    else v

unfoldable pub reactivate_validator : ℕ → Text → Registry → Registry
reactivate_validator now k = change k (reactivate now)

-- `list_validators`; no limit and the limit 0 give all
pub list_validators : ℕ → Registry → List ValidatorInfo
list_validators limit r =
    if limit == 0 then values r.validators else take limit (values r.validators)
