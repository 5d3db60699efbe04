-- ===== src/Blockchain/Vm.antt =====
-- core/blockchain/vm/simple_vm.py and the ExecutionResult of vm_interface.py. Bytecode is its list
-- of lines, each split into words; a stack has its top first.
pub mod Values
pub mod Steps
pub mod Effects
pub mod Gas
pub mod Diff
mod Tests
use ai_inference_chain.Prelude.{
  ℕ, zero, suc, ◌+◌, Bool, true, false, Option, none, some, List, [], ◌∷◌, Result, ok, err, ◌>>=◌,
  leb, ◌==◌, if◌then◌else◌, get_elem?, length,
}
use mathlib.Core.Option
use mathlib.Core.List.{reverse}
use ai_inference_chain.Prelude.Dict.{Dict, lookup, insert}
use ai_inference_chain.Blockchain.Constants.{Text, contract_gas_limit}
use ai_inference_chain.Qoi.Quality.{Floats}
use ai_inference_chain.Blockchain.Vm.Values.{Value, VmError, Python, gas_exceeded, eq_values}
use ai_inference_chain.Blockchain.Vm.Steps.{
  Instr, Frame, Next, running, done, label_word, first, tick,
}

-- `_parse`: blank lines are dropped.
abbrev pub parse : List (List Text) → List Instr
parse [] = []
parse ([] ∷ ls) = parse ls
parse ((w ∷ ws) ∷ ls) = record { word = w; operands = ws } ∷ parse ls

-- The first pass, from the instruction at `i`: the index of each label, the last one of a name.
unfoldable pub collect : ℕ → List Instr → Dict ℕ → Result VmError (Dict ℕ)
collect i [] labels = ok labels
collect i (x ∷ xs) labels = elim (x.word == label_word) [
  | true ↦ first x.operands >>= λ l. collect (i + 1) xs (insert l i labels)
  | false ↦ collect (i + 1) xs labels
]

-- `{k: v for k, v in state.items() if original_state.get(k) != v}`
abbrev pub differs : {fl : Floats} → Python fl → Option (Value fl) → Value fl → Bool
differs py none v = true
differs py (some u) v = if eq_values py u v then false else true

unfoldable pub state_diff :
    {fl : Floats} → Python fl → Dict (Value fl) → Dict (Value fl) → Dict (Value fl)
state_diff py before [] = []
state_diff py before ((k, v) ∷ d) =
    let rest = state_diff py before d in
    if differs py (lookup k before) v then (k, v) ∷ rest else rest

-- What `_execute` returns.
pub record Finished (fl : Floats) : Type 0 where
  pub result : Option (Value fl)
  pub diff : Dict (Value fl)
  pub gas : ℕ

pub data CallError : Type 0 where
  contract_not_found not_in_abi : CallError
  failed : VmError → CallError

pub record ExecutionResult (fl : Floats) : Type 0 where
  pub success : Bool
  pub return_value : Option (Value fl)
  pub gas_used : ℕ
  pub error : Option CallError
  pub state_diff : Dict (Value fl)

-- A deployed contract. An entry of the ABI may bring bytecode of its own.
pub record Contract : Type 0 where
  pub bytecode : List (List Text)
  pub abi : Dict (Option (List (List Text)))

-- `SimpleVM._contracts`
abbrev pub SimpleVm : Type 0
SimpleVm = Dict Contract

module _ {fl : Floats} (py : Python fl) where
  module _ (from : Text) (sent : Value fl) (limit : ℕ) (code : List Instr) (labels : Dict ℕ) where
    -- The `while` loop, on fuel; `none` means that the fuel ran out.
    unfoldable pub run : ℕ → Frame fl → Option (Result VmError (Option (Value fl) × Frame fl))
    run zero m = none
    run (suc fuel) m = elim (get_elem? code m.pc) [
      | none ↦ some (ok (none, m))
      | some i ↦
          if leb limit m.gas then some (err gas_exceeded) else elim (tick py from sent labels i m) [
            | err e ↦ some (err e)
            | ok (done v m') ↦ some (ok (v, m'))
            | ok (running m') ↦ run fuel m'
          ]
    ]

  -- The end of `_execute`, and its result.
  abbrev pub finish :
      Dict (Value fl) → Result VmError (Option (Value fl) × Frame fl) → Result VmError (Finished fl)
  finish before (err e) = err e
  finish before (ok (v, m)) =
      ok (record { result = v; diff = state_diff py before m.state; gas = m.gas })

  -- The last argument is on top.
  abbrev pub start_frame : List (Value fl) → Dict (Value fl) → Frame fl
  start_frame args state = record { stack = reverse args; state = state; pc = 0; gas = 0 }

  -- `_execute`. Each round burns gas, so the limit bounds the rounds.
  unfoldable pub execute :
      Text
      → Value fl
      → ℕ
      → List Instr
      → List (Value fl)
      → Dict (Value fl)
      → Option (Result VmError (Finished fl))
  unfolding run collect
  execute from sent limit code args state = elim (collect 0 code []) [
    | err e ↦ some (err e)
    | ok labels ↦
        Option.map (finish state)
          (run from sent limit code labels (suc limit) (start_frame args state))
  ]

  abbrev pub failure : CallError → ExecutionResult fl
  failure e = record {
    success = false;
    return_value = none;
    gas_used = 0;
    error = some e;
    state_diff = [];
  }

  -- The `try` of `call`.
  abbrev pub report : Result VmError (Finished fl) → ExecutionResult fl
  report (err e) = failure (failed e)
  report (ok r) = record {
    success = true;
    return_value = r.result;
    gas_used = r.gas;
    error = none;
    state_diff = r.diff;
  }

  -- `abi[function].get("bytecode", contract["bytecode"])`
  abbrev pub bytecode_of : Contract → Option (List (List Text)) → List (List Text)
  bytecode_of c none = c.bytecode
  bytecode_of c (some own) = own

  abbrev pub deploy :
      List (List Text)
      → Dict (Option (List (List Text)))
      → Text
      → SimpleVm
      → ExecutionResult fl × SimpleVm
  deploy bytecode abi address vm = (
    record { success = true; return_value = none; gas_used = 1; error = none; state_diff = [] },
    insert address (record { bytecode = bytecode; abi = abi }) vm,
  )

  unfoldable pub call :
      Text
      → Text
      → List (Value fl)
      → Text
      → Value fl
      → Dict (Value fl)
      → SimpleVm
      → Option (ExecutionResult fl)
  unfolding execute
  call address function args from sent state vm = elim (lookup address vm) [
    | none ↦ some (failure contract_not_found)
    | some c ↦ elim (lookup function c.abi) [
      | none ↦ some (failure not_in_abi)
      | some entry ↦
          Option.map report
            (execute from sent contract_gas_limit (parse (bytecode_of c entry)) args state)
    ]
  ]

abbrev pub get_abi : Text → SimpleVm → Option (Dict (Option (List (List Text))))
get_abi address vm = Option.map (λ (c : Contract). c.abi) (lookup address vm)
