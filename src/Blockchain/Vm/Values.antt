-- ===== src/Blockchain/Vm/Values.antt =====
-- The values that core/blockchain/vm/simple_vm.py computes with, and Python's operators on them.
-- A contract's values are ints, floats, bools and strings, as JSON has them; `None` and nested
-- values are left out.
use ai_inference_chain.Prelude.{
  Bool, true, false, not, ◌&&◌, Option, none, some, Result, ok, err, ltb, ◌==◌,
}
use ai_inference_chain.Prelude.Int.{ℤ, pos, ◌+ℤ◌, ◌-ℤ◌, ◌*ℤ◌, ltb_ℤ}
use ai_inference_chain.Blockchain.Constants.{Text, is_truthy}
use ai_inference_chain.Qoi.Quality.{Floats, zero_float}

pub data Value (fl : Floats) : Type 0 where
  int : ℤ → Value fl
  float : fl.Float → Value fl
  flag : Bool → Value fl
  text : Text → Value fl

-- The messages of SimpleVMError; `vm_error` is any other exception.
pub data VmError : Type 0 where
  gas_exceeded stack_underflow division_by_zero assertion_failed : VmError
  insufficient_balance unknown_label unknown_opcode vm_error : VmError

-- What Python does with strings and with ints beside floats, and the keys that f-strings make.
-- `none` is an exception: a text that is no number, a quotient of ints too large for a float. An
-- int that meets a float is taken to be in the range of floats.
pub record Python (fl : Floats) : Type 0 where
  pub upper : Text → Text
  pub concat : Text → Text → Text
  pub repeat : Text → ℤ → Text
  pub parse_int : Text → Option ℤ
  pub parse_float : Text → Option fl.Float
  pub of_ℤ : ℤ → fl.Float
  pub div_ints : ℤ → ℤ → Option fl.Float
  pub eq_int_float : ℤ → fl.Float → Bool
  pub lt_int_float : ℤ → fl.Float → Bool
  pub lt_float_int : fl.Float → ℤ → Bool
  pub balance_key : Value fl → Text
  pub transfer_key : Text → Text

abbrev pub eq_ℤ : ℤ → ℤ → Bool
eq_ℤ a b = not (ltb_ℤ a b) && not (ltb_ℤ b a)

-- A bool is the int 0 or 1 to an operator.
abbrev pub of_bool : Bool → ℤ
of_bool true = pos 1
of_bool false = pos 0

module _ {fl : Floats} where
  abbrev pub truthy : Value fl → Bool
  truthy (int n) = not (eq_ℤ n (pos 0))
  truthy (float x) = not (fl.eq x (zero_float fl))
  truthy (flag b) = b
  truthy (text s) = is_truthy s

module _ {fl : Floats} (py : Python fl) where
  -- `a == b`
  abbrev pub eq_numbers : Value fl → Value fl → Bool
  eq_numbers (int m) (int n) = eq_ℤ m n
  eq_numbers (int m) (float y) = py.eq_int_float m y
  eq_numbers (float x) (int n) = py.eq_int_float n x
  eq_numbers (float x) (float y) = fl.eq x y
  eq_numbers (text s) (text t) = s == t
  eq_numbers _ _ = false

  -- An operand of an operator: a bool is an int.
  abbrev pub operand : Value fl → Value fl
  operand (flag b) = int (of_bool b)
  operand v = v

  abbrev pub eq_values : Value fl → Value fl → Bool
  eq_values a b = eq_numbers (operand a) (operand b)

  -- `a < b`; a string and a number have no order.
  abbrev pub lt_operands : Value fl → Value fl → Result VmError Bool
  lt_operands (int m) (int n) = ok (ltb_ℤ m n)
  lt_operands (int m) (float y) = ok (py.lt_int_float m y)
  lt_operands (float x) (int n) = ok (py.lt_float_int x n)
  lt_operands (float x) (float y) = ok (fl.lt x y)
  lt_operands (text s) (text t) = ok (ltb s t)
  lt_operands _ _ = err vm_error

  abbrev pub lt_values : Value fl → Value fl → Result VmError Bool
  lt_values a b = lt_operands (operand a) (operand b)

  abbrev pub add_operands : Value fl → Value fl → Result VmError (Value fl)
  add_operands (int m) (int n) = ok (int (m +ℤ n))
  add_operands (int m) (float y) = ok (float (fl.add (py.of_ℤ m) y))
  add_operands (float x) (int n) = ok (float (fl.add x (py.of_ℤ n)))
  add_operands (float x) (float y) = ok (float (fl.add x y))
  add_operands (text s) (text t) = ok (text (py.concat s t))
  add_operands _ _ = err vm_error

  abbrev pub add_values : Value fl → Value fl → Result VmError (Value fl)
  add_values a b = add_operands (operand a) (operand b)

  abbrev pub sub_operands : Value fl → Value fl → Result VmError (Value fl)
  sub_operands (int m) (int n) = ok (int (m -ℤ n))
  sub_operands (int m) (float y) = ok (float (fl.add (py.of_ℤ m) (fl.neg y)))
  sub_operands (float x) (int n) = ok (float (fl.add x (fl.neg (py.of_ℤ n))))
  sub_operands (float x) (float y) = ok (float (fl.add x (fl.neg y)))
  sub_operands _ _ = err vm_error

  abbrev pub sub_values : Value fl → Value fl → Result VmError (Value fl)
  sub_values a b = sub_operands (operand a) (operand b)

  -- A string times an int repeats it.
  abbrev pub mul_operands : Value fl → Value fl → Result VmError (Value fl)
  mul_operands (int m) (int n) = ok (int (m *ℤ n))
  mul_operands (int m) (float y) = ok (float (fl.mul (py.of_ℤ m) y))
  mul_operands (float x) (int n) = ok (float (fl.mul x (py.of_ℤ n)))
  mul_operands (float x) (float y) = ok (float (fl.mul x y))
  mul_operands (text s) (int n) = ok (text (py.repeat s n))
  mul_operands (int m) (text t) = ok (text (py.repeat t m))
  mul_operands _ _ = err vm_error

  abbrev pub mul_values : Value fl → Value fl → Result VmError (Value fl)
  mul_values a b = mul_operands (operand a) (operand b)

  abbrev pub div_operands : Value fl → Value fl → Result VmError (Value fl)
  div_operands (int m) (int n) = elim (py.div_ints m n) [
    | none ↦ err vm_error
    | some x ↦ ok (float x)
  ]
  div_operands (int m) (float y) = ok (float (fl.div (py.of_ℤ m) y))
  div_operands (float x) (int n) = ok (float (fl.div x (py.of_ℤ n)))
  div_operands (float x) (float y) = ok (float (fl.div x y))
  div_operands _ _ = err vm_error

  -- `a / b`, once `b == 0` has been ruled out
  abbrev pub div_values : Value fl → Value fl → Result VmError (Value fl)
  div_values a b = div_operands (operand a) (operand b)
