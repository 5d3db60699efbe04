-- ===== src/Blockchain/Vm/Diff.antt =====
-- The state diff of core/blockchain/vm/simple_vm.py: writing it over the old state gives the new one.
use mathlib.Core.Option
use ai_inference_chain.Prelude.{
  ℕ, zero, suc, ◌≡◌, ◌⊎◌, refl, sym, ap, subst, ◌∙◌, inl, inr, true, false, Option, none, some,
  List, [], ◌∷◌, Result, ok, err, leb, if◌then◌else◌, get_elem?, arith, Bool-cases, Option-cases,
  Result-cases,
}
use ai_inference_chain.Prelude.Dict.{
  Dict, lookup, insert, lookup-insert, keys, IsDistinct, Fresh, insert-IsDistinct, lookup-Fresh,
}
use ai_inference_chain.Blockchain.Constants.{Text}
use ai_inference_chain.Qoi.Quality.{Floats}
use ai_inference_chain.Blockchain.Vm.Values.{Value, VmError, Python, eq_values}
use ai_inference_chain.Blockchain.Vm.Steps.{Instr, Frame, tick}
use ai_inference_chain.Blockchain.Vm.Effects.{Next-cases, Leaves, IsWritable, tick-Leaves}
use ai_inference_chain.Blockchain.Vm.{
  run, execute, Finished, state_diff, differs, collect, start_frame, finish,
}

-- The diff written over a state, entry by entry.
abbrev pub apply_diff : {fl : Floats} → Dict (Value fl) → Dict (Value fl) → Dict (Value fl)
apply_diff [] d = d
apply_diff ((k, v) ∷ es) d = apply_diff es (insert k v d)

-- Python's `==` of two lookups.
abbrev pub Agree : {fl : Floats} → Python fl → Option (Value fl) → Option (Value fl) → Type 0
Agree py none none = Unit {0}
Agree py (some u) (some v) = (u ≡ v) ⊎ (eq_values py u v ≡ true)
Agree py _ _ = ⊥

module _ {fl : Floats} (py : Python fl) where
  -- An entry of a diff is written for its key; the other keys keep what they had.
  lookup-apply_diff :
      (k : Text) (es d : Dict (Value fl))
      → IsDistinct (keys es)
      → lookup k (apply_diff es d) ≡ elim (lookup k es) [ some v ↦ some v | none ↦ lookup k d ]
  lookup-apply_diff k [] d h = refl
  lookup-apply_diff k ((j, v) ∷ es) d h = ground (
    arith,
    lookup-apply_diff k es (insert j v d) h.1,
    lookup-insert k j v d,
    lookup-Fresh j es h.0,
  )

  Fresh-state_diff :
      (j : Text) (before after : Dict (Value fl))
      → Fresh j (keys after)
      → Fresh j (keys (state_diff py before after))
  unfolding state_diff
  Fresh-state_diff j before [] h = tt
  Fresh-state_diff j before ((k, v) ∷ d) h = ground (arith, Fresh-state_diff j before d h.1)

  state_diff-IsDistinct :
      (before after : Dict (Value fl))
      → IsDistinct (keys after)
      → IsDistinct (keys (state_diff py before after))
  unfolding state_diff
  state_diff-IsDistinct before [] h = tt
  state_diff-IsDistinct before ((k, v) ∷ d) h =
      ground (arith, Fresh-state_diff k before d h.0, state_diff-IsDistinct before d h.1)

  -- What a key of the new state has in the diff.
  lookup-state_diff :
      (k : Text) (before after : Dict (Value fl))
      → IsDistinct (keys after)
      → lookup k (state_diff py before after) ≡ elim (lookup k after) [
        | none ↦ none
        | some v ↦ if differs py (lookup k before) v then some v else none
      ]
  unfolding state_diff
  lookup-state_diff k before [] h = refl
  lookup-state_diff k before ((j, v) ∷ d) h = ground (
    arith,
    lookup-state_diff k before d h.1,
    lookup-Fresh j (state_diff py before d) (Fresh-state_diff j before d h.0),
  )

  -- The new state has every key of the old one.
  abbrev Extends : Dict (Value fl) → Dict (Value fl) → Type 0
  Extends before after =
      IsDistinct (keys after) × ((k : Text) → lookup k after ≡ none → lookup k before ≡ none)

  differs-Agree :
      (u : Option (Value fl)) (v : Value fl) → differs py u v ≡ false → Agree py u (some v)
  differs-Agree none v h = ground (arith, h)
  differs-Agree (some u) v h = elim (Bool-cases (eq_values py u v)) [
    | inl e ↦ inr e
    | inr e ↦ ground (arith, h, e)
  ]

  -- A key's entry in the diff.
  abbrev entry_of : Option (Value fl) → Option (Value fl) → Option (Value fl)
  entry_of u w = elim w [ none ↦ none | some v ↦ if differs py u v then some v else none ]

  entry_of-Agree :
      (u w : Option (Value fl))
      → (w ≡ none → u ≡ none)
      → Agree py (elim (entry_of u w) [ some v ↦ some v | none ↦ u ]) w
  entry_of-Agree u none h = rw (h refl) tt
  entry_of-Agree u (some v) h = elim (Bool-cases (differs py u v)) [
    | inl e ↦ rw e (inl refl)
    | inr e ↦ rw e (differs-Agree u v e)
  ]

  apply_diff-Agree :
      (before after : Dict (Value fl))
      → Extends before after
      → (k : Text)
      → Agree py (lookup k (apply_diff (state_diff py before after) before)) (lookup k after)
  apply_diff-Agree before after h k =
      subst (λ t. Agree py t (lookup k after))
        (sym (
          lookup-apply_diff k (state_diff py before after) before
            (state_diff-IsDistinct before after h.0)
          ∙ ap (λ t. elim t [ some v ↦ some v | none ↦ lookup k before ])
              (lookup-state_diff k before after h.0)))
        (entry_of-Agree (lookup k before) (lookup k after) (h.1 k))

  Extends-IsWritable : (before : Dict (Value fl)) → IsWritable (λ g. Extends before)
  Extends-IsWritable before g k v d q =
      (insert-IsDistinct k v d q.0, λ j h. q.1 j (ground (arith, h, lookup-insert j k v d)))

  module _ (from : Text) (sent : Value fl) (limit : ℕ) (code : List Instr) (labels : Dict ℕ) where
    run-Extends :
        (before : Dict (Value fl)) (fuel : ℕ) (m : Frame fl) {v : Option (Value fl)} {m' : Frame fl}
        → Extends before m.state
        → run py from sent limit code labels fuel m ≡ some (ok (v, m'))
        → Extends before m'.state
    unfolding run
    run-Extends before zero m q h = cc
    run-Extends before (suc fuel) m {v} {m'} q h = elim (Option-cases (get_elem? code m.pc)) [
      | inl e ↦
          let same : m ≡ m' = ground (arith, e, h) in subst (λ x. Extends before x.state) same q
      | inr (i, e) ↦ elim (Bool-cases (leb limit m.gas)) [
        | inl full ↦ absurd (ground (arith, e, full, h))
        | inr room ↦
            let left =
              tick-Leaves py from sent labels (λ g. Extends before) (Extends-IsWritable before) i m
                q in
            elim (Next-cases (tick py from sent labels i m)) [
              | inl (x, t) ↦ absurd (ground (arith, e, room, t, h))
              | inr (inl (w, n, t)) ↦
                  let same : n ≡ m' = ground (arith, e, room, t, h) in
                  subst (λ x. Extends before x.state) same
                    (subst (Leaves (λ g. Extends before)) t left)
              | inr (inr (n, t)) ↦
                  run-Extends before fuel n {v = v} {m' = m'}
                    (subst (Leaves (λ g. Extends before)) t left) (ground (arith, e, room, t, h))
            ]
      ]
    ]

  finish-eq-ok :
      (state : Dict (Value fl)) (o : Option (Result VmError (Option (Value fl) × Frame fl)))
      {r : Finished fl}
      → Option.map (finish py state) o ≡ some (ok r)
      → (m : Frame fl) × (o ≡ some (ok (r.result, m)))
        × (r.gas ≡ m.gas)
        × (r.diff ≡ state_diff py state m.state)
  finish-eq-ok state none h = cc
  finish-eq-ok state (some (err e)) h = cc
  finish-eq-ok state (some (ok (v, m))) h =
      (m, ground (arith, h), ground (arith, h), ground (arith, h))

  -- An execution that ends well returns the value that its run returned, and a diff which, written
  -- over the state that it was given, has for every key the value of the run's final state, up to
  -- Python's `==`: no write is lost, and no key that was left alone is changed. Condition: the state
  -- is a dict.
  pub execute-diff :
      (from : Text) (sent : Value fl) (limit : ℕ) (code : List Instr) (args : List (Value fl))
      (state : Dict (Value fl)) (r : Finished fl)
      → IsDistinct (keys state)
      → execute py from sent limit code args state ≡ some (ok r)
      → (labels : Dict ℕ) × (m : Frame fl) × (run py from sent limit code labels
            (suc limit)
            (start_frame py args state)
          ≡ some (ok (r.result, m)))
        × (r.gas ≡ m.gas)
        × ((k : Text) → Agree py (lookup k (apply_diff r.diff state)) (lookup k m.state))
  unfolding execute
  execute-diff from sent limit code args state r d h = elim (Result-cases (collect 0 code [])) [
    | inl (e, c) ↦ absurd (ground (arith, c, h))
    | inr (labels, c) ↦
        let start = start_frame py args state in
        let (m, ran, burnt, diff) =
          finish-eq-ok state (run py from sent limit code labels (suc limit) start) {r = r}
            (ground (arith, c, h)) in
        let after : Extends state m.state =
          run-Extends from sent limit code labels state (suc limit) start (d, λ k e. e) ran in
        (
          labels,
          m,
          ran,
          burnt,
          λ k.
              subst (λ t. Agree py (lookup k (apply_diff t state)) (lookup k m.state)) (sym diff)
                (apply_diff-Agree state m.state after k),
        )
  ]
