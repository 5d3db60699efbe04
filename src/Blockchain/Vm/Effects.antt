-- ===== src/Blockchain/Vm/Effects.antt =====
-- What one instruction of core/blockchain/vm/simple_vm.py does to the gas and the state: the gas
-- grows by one, and the state changes by writes only.
use ai_inference_chain.Prelude.{
  ℕ, ◌+◌, ◌≡◌, ◌⊎◌, refl, inl, inr, ◌&&◌, ◌||◌, Option, List, [], ◌∷◌, Result, ok, err, ◌>>=◌,
  if◌then◌else◌, arith, Option-cases,
}
use ai_inference_chain.Prelude.Dict.{Dict, lookup, insert}
use ai_inference_chain.Blockchain.Constants.{Text}
use ai_inference_chain.Qoi.Quality.{Floats}
use ai_inference_chain.Blockchain.Vm.Values.{
  Value, VmError, Python, flag, truthy, eq_values, lt_values, sub_values, add_values,
  insufficient_balance,
}
use ai_inference_chain.Blockchain.Vm.Steps.{
  Opcode, Instr, Frame, Next, running, done, execute_op, tick, words, binary, contract_balance,
  pop_two, amount_of, pay, first, pop_one,
}

abbrev pub frame_of : {fl : Floats} → Next fl → Frame fl
frame_of (running m) = m
frame_of (done v m) = m

pub Next-cases :
    {fl : Floats} (r : Result VmError (Next fl))
    → ((e : VmError) × (r ≡ err e))
      ⊎ ((v : Option (Value fl)) × (m : Frame fl) × (r ≡ ok (done v m)))
      ⊎ ((m : Frame fl) × (r ≡ ok (running m)))
Next-cases (err e) = inl (e, refl)
Next-cases (ok (done v m)) = inr (inl (v, m, refl))
Next-cases (ok (running m)) = inr (inr (m, refl))

-- A result that raises, or whose value has the property.
abbrev pub Holds : {A : Type 0} → (A → Type 0) → Result VmError A → Type 0
Holds P (err e) = Unit {0}
Holds P (ok a) = P a

Holds-bind :
    {A B : Type 0} (R : A → Type 0) (P : B → Type 0) (r : Result VmError A)
    (f : A → Result VmError B)
    → Holds R r
    → ((a : A) → R a → Holds P (f a))
    → Holds P (r >>= f)
Holds-bind R P (err e) f h k = tt
Holds-bind R P (ok a) f h k = k a h

Holds-then :
    {A B : Type 0} (P : B → Type 0) (r : Result VmError A) (f : A → Result VmError B)
    → ((a : A) → Holds P (f a))
    → Holds P (r >>= f)
Holds-then P (err e) f k = tt
Holds-then P (ok a) f k = k a

-- `Q` holds of the gas and the state behind an instruction that does not raise.
abbrev pub Leaves :
    {fl : Floats} → (ℕ → Dict (Value fl) → Type 0) → Result VmError (Next fl) → Type 0
Leaves Q r = Holds (λ n. Q (frame_of n).gas (frame_of n).state) r

-- A property of the gas and the state that every write keeps.
abbrev pub IsWritable : {fl : Floats} → (ℕ → Dict (Value fl) → Type 0) → Type 0
IsWritable {fl} Q = (g k : ℕ) (v : Value fl) (d : Dict (Value fl)) → Q g d → Q g (insert k v d)

module _ {fl : Floats} (py : Python fl) (from : Text) (sent : Value fl) (labels : Dict ℕ) where
  module _ (Q : ℕ → Dict (Value fl) → Type 0) (write : IsWritable Q) where
    abbrev After : Next fl → Type 0
    After n = Q (frame_of n).gas (frame_of n).state

    binary-Leaves :
        (f : Value fl → Value fl → Result VmError (Value fl)) (m : Frame fl)
        → Q m.gas m.state
        → Leaves Q (binary py f m)
    binary-Leaves f m q =
        Holds-then After (pop_two m.stack) _ (λ x. Holds-then After (f x.0 x.1) _ (λ v. q))

    pay-Holds :
        (g : ℕ) (to : Text) (amount : Value fl) (d : Dict (Value fl))
        → Q g d
        → Holds (Q g) (pay py to amount d)
    pay-Holds g to amount d q = Holds-then (Q g) (lt_values py _ amount) _ (λ poor.
        Holds-then (Q g) (if poor then err insufficient_balance else sub_values py _ amount) _
          (λ left.
            Holds-then (Q g) (add_values py _ amount) _
              (λ paid. write g _ paid _ (write g contract_balance left d q))))

    execute_op-Leaves :
        (o : Opcode) (ws : List Text) (m : Frame fl)
        → Q m.gas m.state
        → Leaves Q (execute_op py from sent labels o ws m)
    unfolding execute_op
    execute_op-Leaves Opcode.transfer [] m q = tt
    execute_op-Leaves Opcode.transfer (to ∷ ws) m q =
        Holds-then After (amount_of py ws m.stack) _ (λ x.
          Holds-bind (Q m.gas) After (pay py to x.0 m.state) _ (pay-Holds m.gas to x.0 m.state q)
            (λ d h. h))
    execute_op-Leaves Opcode.store ws m q =
        Holds-then After (first ws) _
          (λ k. Holds-then After (pop_one m.stack) _ (λ x. write m.gas k x.0 m.state q))
    execute_op-Leaves Opcode.add ws m q = binary-Leaves _ m q
    execute_op-Leaves Opcode.sub ws m q = binary-Leaves _ m q
    execute_op-Leaves Opcode.mul ws m q = binary-Leaves _ m q
    execute_op-Leaves Opcode.div ws m q = binary-Leaves _ m q
    execute_op-Leaves Opcode.eq ws m q = binary-Leaves (λ a b. ok (flag (eq_values py a b))) m q
    execute_op-Leaves Opcode.lt ws m q = binary-Leaves _ m q
    execute_op-Leaves Opcode.gt ws m q = binary-Leaves _ m q
    execute_op-Leaves Opcode.both ws m q =
        binary-Leaves (λ a b. ok (flag (truthy a && truthy b))) m q
    execute_op-Leaves Opcode.either ws m q =
        binary-Leaves (λ a b. ok (flag (truthy a || truthy b))) m q
    execute_op-Leaves _ ws m q = ground arith

    pub tick-Leaves :
        (i : Instr) (m : Frame fl) → Q (m.gas + 1) m.state → Leaves Q (tick py from sent labels i m)
    unfolding tick
    tick-Leaves i m q = elim (Option-cases (lookup (py.upper i.word) words)) [
      | inl e ↦ rw (Leaves, tick, e) tt
      | inr (o, e) ↦
          rw (Leaves, tick, e)
            (execute_op-Leaves o i.operands (record m { gas = m.gas + 1; pc = m.pc + 1 }) q)
    ]
