-- ===== src/Blockchain/Vm/Gas.antt =====
-- The gas of core/blockchain/vm/simple_vm.py: every execution ends, within its limit.
use ai_inference_chain.Prelude.{
  ℕ, zero, suc, ◌+◌, ◌≤◌, ◌<◌, ◌≡◌, ◌⊎◌, refl, subst, inl, inr, true, Option, none, some, List, [],
  Result, ok, err, leb, get_elem?, arith, Bool-cases, Option-cases, Result-cases,
}
use ai_inference_chain.Prelude.Dict.{Dict, lookup}
use ai_inference_chain.Blockchain.Constants.{Text, contract_gas_limit}
use ai_inference_chain.Qoi.Quality.{Floats}
use ai_inference_chain.Blockchain.Vm.Values.{Value, VmError, Python, gas_exceeded}
use ai_inference_chain.Blockchain.Vm.Steps.{Instr, Frame, Next, tick}
use ai_inference_chain.Blockchain.Vm.Effects.{frame_of, Next-cases, Leaves, tick-Leaves}
use ai_inference_chain.Blockchain.Vm.{
  run, execute, call, SimpleVm, Finished, ExecutionResult, CallError, failure, failed, report,
  finish, collect, start_frame, contract_not_found, not_in_abi, parse, bytecode_of,
}

-- A run that ends without an error has burnt at most the limit.
abbrev WithinGas : {fl : Floats} → ℕ → Result VmError (Option (Value fl) × Frame fl) → Type 0
WithinGas limit (err e) = Unit {0}
WithinGas limit (ok (v, m)) = m.gas ≤ limit

module _ {fl : Floats} (py : Python fl) (from : Text) (sent : Value fl) (labels : Dict ℕ) where
  -- The gas behind an instruction.
  abbrev Burnt : Frame fl → ℕ → Dict (Value fl) → Type 0
  Burnt m g d = g ≡ m.gas + 1

  tick-burns :
      (i : Instr) (m : Frame fl) {n : Next fl}
      → tick py from sent labels i m ≡ ok n
      → (frame_of n).gas ≡ m.gas + 1
  tick-burns i m t =
      subst (Leaves (Burnt m)) t
        (tick-Leaves py from sent labels (Burnt m) (λ g k v d q. q) i m refl)

  run-total :
      (limit : ℕ) (code : List Instr) (fuel : ℕ) (m : Frame fl)
      → m.gas ≤ limit
      → limit < m.gas + fuel
      → (r : Result VmError (Option (Value fl) × Frame fl)) × (run py from sent limit code labels
            fuel m
          ≡ some r)
        × WithinGas limit r
  unfolding run
  run-total limit code zero m h k = absurd (omega arith)
  run-total limit code (suc fuel) m h k = elim (Option-cases (get_elem? code m.pc)) [
    | inl e ↦ (ok (none, m), ground (arith, e), h)
    | inr (i, e) ↦ elim (Bool-cases (leb limit m.gas)) [
      | inl full ↦ (err gas_exceeded, ground (arith, e, full), tt)
      | inr room ↦ elim (Next-cases (tick py from sent labels i m)) [
        | inl (x, t) ↦ (err x, ground (arith, e, room, t), tt)
        | inr (inl (v, m', t)) ↦
            (ok (v, m'), ground (arith, e, room, t), ground (arith, room, tick-burns i m t))
        | inr (inr (m', t)) ↦
            let burnt : m'.gas ≡ m.gas + 1 = tick-burns i m t in
            let (r, g, w) =
              run-total limit code fuel m' (ground (arith, room, burnt)) (omega (arith, burnt)) in
            (r, ground (arith, e, room, t, g), w)
      ]
    ]
  ]

module _ {fl : Floats} (py : Python fl) where
  -- What a failed call reports: no gas, no value, no change.
  abbrev pub IsSettled : ExecutionResult fl → Type 0
  IsSettled r = ((r.success ≡ true) × (r.error ≡ none)) ⊎ ((e : CallError) × (r ≡ failure py e))

  finish-gas :
      (limit : ℕ) (state : Dict (Value fl)) (r : Result VmError (Option (Value fl) × Frame fl))
      → WithinGas limit r
      → (report py (finish py state r)).gas_used ≤ limit
  finish-gas limit state (err e) w = omega arith
  finish-gas limit state (ok (v, m)) w = w

  report-IsSettled : (r : Result VmError (Finished fl)) → IsSettled (report py r)
  report-IsSettled (err e) = inr (failed e, refl)
  report-IsSettled (ok r) = inl (refl, refl)

  execute-total :
      (from : Text) (sent : Value fl) (limit : ℕ) (code : List Instr) (args : List (Value fl))
      (state : Dict (Value fl))
      → (r : Result VmError (Finished fl)) × (execute py from sent limit code args state ≡ some r)
        × (report py r).gas_used ≤ limit
  unfolding execute
  execute-total from sent limit code args state = elim (Result-cases (collect 0 code [])) [
    | inl (e, c) ↦ (err e, ground (arith, c), omega arith)
    | inr (labels, c) ↦
        let (r, run_ends, w) =
          run-total py from sent labels limit code (suc limit) (start_frame py args state)
            (omega arith) (omega arith) in
        (finish py state r, ground (arith, c, run_ends), finish-gas limit state r w)
  ]

  -- Every call ends with a result, and burns at most `CONTRACT_GAS_LIMIT`: the loop never runs for
  -- ever. The result is a success with no error, or a failure that reports its error and no gas, no
  -- value and no changes of the state.
  pub call-total :
      (address function : Text) (args : List (Value fl)) (from : Text) (sent : Value fl)
      (state : Dict (Value fl)) (vm : SimpleVm)
      → (r : ExecutionResult fl) × (call py address function args from sent state vm ≡ some r)
        × (r.gas_used ≤ contract_gas_limit)
        × IsSettled r
  unfolding call
  call-total address function args from sent state vm = elim (Option-cases (lookup address vm)) [
    | inl e ↦ (
      failure py contract_not_found,
      ground (arith, e),
      omega arith,
      inr (contract_not_found, refl),
    )
    | inr (c, e) ↦ elim (Option-cases (lookup function c.abi)) [
      | inl f ↦ (failure py not_in_abi, ground (arith, e, f), omega arith, inr (not_in_abi, refl))
      | inr (entry, f) ↦
          let (r, ends, g) =
            execute-total from sent contract_gas_limit (parse (bytecode_of py c entry)) args
              state in
          (report py r, ground (arith, e, f, ends), g, report-IsSettled r)
    ]
  ]
