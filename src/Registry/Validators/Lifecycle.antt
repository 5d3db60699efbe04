-- ===== src/Registry/Validators/Lifecycle.antt =====
-- Stakes, penalties and statuses in core/registry/validator_registry.py.
use ai_inference_chain.Prelude.{ℕ, ◌≡◌, refl, some, if◌then◌else◌, arith}
use ai_inference_chain.Prelude.Int.{pos, ◌+ℤ◌, ◌-ℤ◌, ◌≤ℤ◌, ltb_ℤ, min_ℤ, int_laws}
use ai_inference_chain.Prelude.Dict.{lookup-insert}
use ai_inference_chain.Blockchain.Constants.{Text, Amount}
use ai_inference_chain.Registry.Validators.Lookups.{lookup-change_self}
use ai_inference_chain.Registry.Validators.{
  Registry, ValidatorInfo, ValidatorStatus, slash, slash_validator, deactivate_validator,
  reactivate_validator, reactivate, get_validator,
}

-- A slash by zero or more moves tokens from the validator's stake to its penalties and creates or
-- loses none: the stake stays at zero or more and does not grow. The status becomes SLASHED if the
-- stake is then below the minimum, and otherwise stays. Condition: the stake is zero or more.
slash_validator-lem :
    (k : Text) (x : Amount) (v : ValidatorInfo) (r : Registry)
    → get_validator k r ≡ some v
    → pos 0 ≤ℤ x
    → pos 0 ≤ℤ v.stake
    → (w : ValidatorInfo) × (get_validator k (slash_validator k x r) ≡ some w)
      × (w.stake +ℤ w.penalties_paid ≡ v.stake +ℤ v.penalties_paid)
      × (pos 0 ≤ℤ w.stake)
      × (w.stake ≤ℤ v.stake)
      × (w.status ≡ (if ltb_ℤ w.stake r.min_stake then ValidatorStatus.slashed else v.status))
unfolding slash_validator slash get_validator
slash_validator-lem k x v r e px ps = (
  slash r.min_stake x v,
  ground (arith, e, lookup-insert k k (slash r.min_stake x v) r.validators),
  grind int_laws,
  grind int_laws,
  grind int_laws,
  ground arith,
)

-- A slashed validator is active again after a deactivation and a reactivation, whatever is left of
-- its stake.
reactivate_validator-after_slash :
    (now : ℕ) (k : Text) (x : Amount) (v : ValidatorInfo) (r : Registry)
    → get_validator k r ≡ some v
    → (w : ValidatorInfo) × (get_validator k
          (reactivate_validator now k (deactivate_validator k (slash_validator k x r)))
        ≡ some w)
      × (w.status ≡ ValidatorStatus.active)
      × (w.stake ≡ v.stake -ℤ min_ℤ x v.stake)
unfolding reactivate_validator reactivate deactivate_validator slash_validator slash get_validator
reactivate_validator-after_slash now k x v r e =
    let slashed : Registry = slash_validator k x r in
    let w : ValidatorInfo = record (slash r.min_stake x v) { status = ValidatorStatus.inactive } in
    let f = lookup-change_self k (slash r.min_stake x) v r e in
    let g =
      lookup-change_self k (λ u. record u { status = ValidatorStatus.inactive })
        (slash r.min_stake x v) slashed f in
    (
      reactivate now w,
      lookup-change_self k (reactivate now) w (deactivate_validator k slashed) g,
      refl,
      ground arith,
    )
