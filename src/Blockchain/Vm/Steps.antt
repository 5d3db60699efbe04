-- ===== src/Blockchain/Vm/Steps.antt =====
-- One instruction of core/blockchain/vm/simple_vm.py: the cases of `_execute`.
use ai_inference_chain.Prelude.{
  ℕ, ◌+◌, true, false, ◌&&◌, ◌||◌, Option, none, some, List, [], ◌∷◌, Result, ok, err, ◌>>=◌,
  if◌then◌else◌,
}
use ai_inference_chain.Prelude.Int.{pos}
use ai_inference_chain.Prelude.Dict.{Dict, lookup, insert, get_or}
use ai_inference_chain.Blockchain.Constants.{Text}
use ai_inference_chain.Qoi.Quality.{Floats, zero_float}
use ai_inference_chain.Blockchain.Vm.Values.{
  Value, VmError, Python, int, float, flag, text, stack_underflow, division_by_zero,
  assertion_failed, insufficient_balance, unknown_label, unknown_opcode, vm_error, truthy,
  eq_values, lt_values, add_values, sub_values, mul_values, div_values,
}

pub data Opcode : Type 0 where
  push pop load store add sub mul div eq lt gt both either negate assert caller value : Opcode
  balance transfer jump jumpi label return halt : Opcode

-- An instruction's words: `instr[0]` and the others.
pub record Instr : Type 0 where
  pub word : Text
  pub operands : List Text

-- "LABEL"
abbrev pub label_word : Text
label_word = 221

-- The words of the opcodes, each a number for its text.
abbrev pub words : Dict Opcode
words =
    (200, push)
    ∷ (201, pop)
    ∷ (202, load)
    ∷ (203, store)
    ∷ (204, add)
    ∷ (205, sub)
    ∷ (206, mul)
    ∷ (207, div)
    ∷ (208, eq)
    ∷ (209, lt)
    ∷ (210, gt)
    ∷ (211, both)
    ∷ (212, either)
    ∷ (213, negate)
    ∷ (214, assert)
    ∷ (215, caller)
    ∷ (216, value)
    ∷ (217, balance)
    ∷ (218, transfer)
    ∷ (219, jump)
    ∷ (220, jumpi)
    ∷ (221, label)
    ∷ (222, return)
    ∷ (223, halt)
    ∷ []

-- "_contract_balance"
abbrev pub contract_balance : Text
contract_balance = 230

-- The variables of `_execute` that an instruction changes.
pub record Frame (fl : Floats) : Type 0 where
  pub stack : List (Value fl)
  pub state : Dict (Value fl)
  pub pc : ℕ
  pub gas : ℕ

-- After an instruction the loop goes on, or it breaks with a return value.
pub data Next (fl : Floats) : Type 0 where
  running : Frame fl → Next fl
  done : Option (Value fl) → Frame fl → Next fl

-- `instr[1]` and `instr[2]` read such a list's head; without one they raise.
abbrev pub first : List Text → Result VmError Text
first [] = err vm_error
first (w ∷ ws) = ok w

-- `_require_stack(stack, n)` and the pops behind it
abbrev pub pop_one {ℓ} : {A : Type ℓ} → List A → Result VmError (A × List A)
pop_one [] = err stack_underflow
pop_one (a ∷ s) = ok (a, s)

abbrev pub pop_two {ℓ} : {A : Type ℓ} → List A → Result VmError (A × A × List A)
pop_two (b ∷ a ∷ s) = ok (a, b, s)
pop_two _ = err stack_underflow

-- `stack.pop()` with no check before it
abbrev pub pop_unchecked {ℓ} : {A : Type ℓ} → List A → Result VmError (A × List A)
pop_unchecked [] = err vm_error
pop_unchecked (a ∷ s) = ok (a, s)

module _ {fl : Floats} (py : Python fl) where
  -- PUSH: an int if the word is one, else a float, else the word.
  abbrev pub literal : Text → Value fl
  literal w = elim (py.parse_int w) [
    | some n ↦ int n
    | none ↦ elim (py.parse_float w) [ some x ↦ float x | none ↦ text w ]
  ]

  abbrev pub push_value : Value fl → Frame fl → Result VmError (Next fl)
  push_value v m = ok (running (record m { stack = v ∷ m.stack }))

  -- An operator on the two topmost values.
  abbrev pub binary :
      (Value fl → Value fl → Result VmError (Value fl)) → Frame fl → Result VmError (Next fl)
  binary f m = do (a, b, s) ← pop_two m.stack; v ← f a b; ok (running (record m { stack = v ∷ s }))

  abbrev pub divide : Value fl → Value fl → Result VmError (Value fl)
  divide a b = if eq_values py b (int (pos 0)) then err division_by_zero else div_values py a b

  abbrev pub less : Value fl → Value fl → Result VmError (Value fl)
  less a b = do c ← lt_values py a b; ok (flag c)

  -- `float(instr[2]) if len(instr) > 2 else stack.pop()`, for the operands behind `to`
  abbrev pub amount_of : List Text → List (Value fl) → Result VmError (Value fl × List (Value fl))
  amount_of [] s = pop_unchecked s
  amount_of (w ∷ ws) s = elim (py.parse_float w) [ none ↦ err vm_error | some x ↦ ok (float x, s) ]

  -- The dict behind a TRANSFER.
  abbrev pub pay : Text → Value fl → Dict (Value fl) → Result VmError (Dict (Value fl))
  pay to amount state = do
    let held = get_or contract_balance state (float (zero_float fl))
    poor ← lt_values py held amount
    left ← if poor then err insufficient_balance else sub_values py held amount
    let state' = insert contract_balance left state
    paid ← add_values py (get_or (py.transfer_key to) state' (float (zero_float fl))) amount
    ok (insert (py.transfer_key to) paid state')

  abbrev pub transfer_to : List Text → Frame fl → Result VmError (Next fl)
  transfer_to [] m = err vm_error
  transfer_to (to ∷ ws) m = do
    (amount, s) ← amount_of ws m.stack
    state ← pay to amount m.state
    ok (running (record m { stack = s; state = state }))

  -- The key's address is the operand, or the topmost value.
  abbrev pub balance_at : List Text → List (Value fl) → Result VmError (Value fl × List (Value fl))
  balance_at (w ∷ ws) s = ok (text w, s)
  balance_at [] s = pop_unchecked s

  module _ (from : Text) (sent : Value fl) (labels : Dict ℕ) where
    abbrev pub jump_to : Text → Frame fl → Result VmError (Next fl)
    jump_to l m = elim (lookup l labels) [
      | none ↦ err unknown_label
      | some i ↦ ok (running (record m { pc = i + 1 }))
    ]

    -- The cases of the `match`.
    unfoldable pub execute_op : Opcode → List Text → Frame fl → Result VmError (Next fl)
    execute_op push ws m = do w ← first ws; push_value (literal w) m
    execute_op pop ws m = do (v, s) ← pop_one m.stack; ok (running (record m { stack = s }))
    execute_op load ws m = do k ← first ws; push_value (get_or k m.state (int (pos 0))) m
    execute_op store ws m = do
      k ← first ws
      (v, s) ← pop_one m.stack
      ok (running (record m { stack = s; state = insert k v m.state }))
    execute_op add ws m = binary (add_values py) m
    execute_op sub ws m = binary (sub_values py) m
    execute_op mul ws m = binary (mul_values py) m
    execute_op div ws m = binary divide m
    execute_op eq ws m = binary (λ a b. ok (flag (eq_values py a b))) m
    execute_op lt ws m = binary less m
    execute_op gt ws m = binary (λ a b. less b a) m
    execute_op both ws m = binary (λ a b. ok (flag (truthy a && truthy b))) m
    execute_op either ws m = binary (λ a b. ok (flag (truthy a || truthy b))) m
    execute_op negate ws m = do
      (v, s) ← pop_one m.stack
      ok (running (record m { stack = flag (if truthy v then false else true) ∷ s }))
    execute_op assert ws m = do
      (v, s) ← pop_one m.stack
      if truthy v then ok (running (record m { stack = s })) else err assertion_failed
    execute_op caller ws m = push_value (text from) m
    execute_op value ws m = push_value sent m
    execute_op balance ws m = do
      (a, s) ← balance_at ws m.stack
      ok (
          running
            (record m { stack = get_or (py.balance_key a) m.state (float (zero_float fl)) ∷ s }))
    execute_op transfer ws m = transfer_to ws m
    execute_op jump ws m = do l ← first ws; jump_to l m
    execute_op jumpi ws m = do
      l ← first ws
      (v, s) ← pop_one m.stack
      let m' = record m { stack = s }
      if truthy v then jump_to l m' else ok (running m')
    execute_op label ws m = ok (running m)
    execute_op return ws m = elim m.stack [
      | [] ↦ ok (done none m)
      | v ∷ s ↦ ok (done (some v) (record m { stack = s }))
    ]
    execute_op halt ws m = ok (done none m)

    -- The body of the loop behind the test of the gas.
    unfoldable pub tick : Instr → Frame fl → Result VmError (Next fl)
    unfolding execute_op
    tick i m = elim (lookup (py.upper i.word) words) [
      | none ↦ err unknown_opcode
      | some o ↦ execute_op o i.operands (record m { gas = m.gas + 1; pc = m.pc + 1 })
    ]
