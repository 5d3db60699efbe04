-- ===== src/Blockchain/Vm/Tests.antt =====
-- The theorems on the virtual machine at concrete inputs.
use ai_inference_chain.Prelude.{
  ℕ, ◌-◌, ◌*◌, ◌≡◌, ◌≤◌, refl, none, some, List, [], ◌∷◌, ok, err, ltb, leb, if◌then◌else◌, ◌==◌,
  arith,
}
use ai_inference_chain.Prelude.Int.{pos, pos_part, ◌+ℤ◌}
use ai_inference_chain.Prelude.Dict.{Dict, lookup}
use ai_inference_chain.Blockchain.Constants.{Text, contract_gas_limit}
use ai_inference_chain.Qoi.Quality.Fixed.{fixed}
use ai_inference_chain.Blockchain.Vm.Values.{Value, Python, int, gas_exceeded}
use ai_inference_chain.Blockchain.Vm.Steps.{Frame, execute_op, tick}
use ai_inference_chain.Blockchain.Vm.{
  SimpleVm, ExecutionResult, Finished, parse, collect, run, state_diff, execute, call, start_frame,
}
use ai_inference_chain.Blockchain.Vm.Gas.{IsSettled, call-total}
use ai_inference_chain.Blockchain.Vm.Diff.{apply_diff, Agree, execute-diff}

-- A text from 1000 on is the int that far above 1000.
abbrev spelled : Python fixed
spelled = record {
  upper = λ s. s;
  concat = λ s t. s;
  repeat = λ s n. s;
  parse_int = λ s. if leb 1000 s then some (pos (s - 1000)) else none;
  parse_float = λ s. none;
  of_ℤ = λ n. pos_part n * 1000;
  div_ints = λ m n. none;
  eq_int_float = λ n x. pos_part n * 1000 == x;
  lt_int_float = λ n x. ltb (pos_part n * 1000) x;
  lt_float_int = λ x n. ltb x (pos_part n * 1000);
  balance_key = λ v. 900;
  transfer_key = λ s. 901;
}

-- PUSH 7, STORE k, LOAD k, PUSH 2, ADD, RETURN, where k is 300
abbrev bump_code : List (List Text)
bump_code =
    (200 ∷ 1007 ∷ [])
    ∷ []
    ∷ (203 ∷ 300 ∷ [])
    ∷ (202 ∷ 300 ∷ [])
    ∷ (200 ∷ 1002 ∷ [])
    ∷ (204 ∷ [])
    ∷ (222 ∷ [])
    ∷ []

abbrev bumped : Finished fixed
bumped = record { result = some (int (pos 9)); diff = (300, int (pos 7)) ∷ []; gas = 6 }

abbrev old_state : Dict (Value fixed)
old_state = (300, int (pos 5)) ∷ (301, int (pos 1)) ∷ []

bump_runs : execute spelled 11 (int (pos 0)) 10 (parse bump_code) [] old_state ≡ some (ok bumped)
unfolding execute collect run tick execute_op state_diff ◌+ℤ◌
bump_runs = refl

-- LABEL a, JUMP a
spins :
    execute spelled 11 (int (pos 0)) 10 (parse ((221 ∷ 400 ∷ []) ∷ (219 ∷ 400 ∷ []) ∷ [])) [] []
    ≡ some (err gas_exceeded)
unfolding execute collect run tick execute_op state_diff ◌+ℤ◌
spins = refl

abbrev deployed : SimpleVm
deployed = (500, record { bytecode = bump_code; abi = (600, none) ∷ [] }) ∷ []

call-total_example :
    (r : ExecutionResult fixed) × (call spelled 500 600 [] 11 (int (pos 0)) old_state deployed
      ≡ some r)
    × (r.gas_used ≤ contract_gas_limit)
    × IsSettled spelled r
call-total_example = call-total spelled 500 600 [] 11 (int (pos 0)) old_state deployed

execute-diff_example :
    (labels : Dict ℕ) × (m : Frame fixed) × (run spelled 11
        (int (pos 0))
        10
        (parse bump_code)
        labels
        11
        (start_frame spelled [] old_state)
      ≡ some (ok (bumped.result, m)))
    × (bumped.gas ≡ m.gas)
    × ((k : Text) → Agree spelled (lookup k (apply_diff bumped.diff old_state)) (lookup k m.state))
execute-diff_example =
    execute-diff spelled 11 (int (pos 0)) 10 (parse bump_code) [] old_state bumped (omega arith)
      bump_runs
