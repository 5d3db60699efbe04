-- ===== src/Qoi/ViewChanger/Wait.antt =====
-- The wait of core/qoi/view_changer.py for a view change.
use ai_inference_chain.Prelude.{
  ℕ, zero, suc, ◌+◌, ◌*◌, ◌<◌, ◌≤◌, ◌≡◌, refl, subst, ◌==◌, inl, inr, Bool, true, false, Bool-cases,
  some, ltb, arith,
}
use ai_inference_chain.Qoi.ViewChanger.{Waited, completed_in_time, timed_out, wait_for_view_change}

-- How a wait ends, against what is read at its last look.
abbrev pub Ends : ℕ → (ℕ → Bool × ℕ) → ℕ → ℕ → Waited → Type 0
Ends timeout look start i completed_in_time = (look i).0 ≡ true
Ends timeout look start i timed_out = ((look i).0 ≡ false) × (start + timeout < (look i).1)

-- The object was completed at no look from one to another.
abbrev pub Open : (ℕ → Bool × ℕ) → ℕ → ℕ → Type 0
Open look i j = (x : ℕ) → i ≤ x → x < j → (look x).0 ≡ false

Open-back :
    (look : ℕ → Bool × ℕ) (i j : ℕ) → (look i).0 ≡ false → Open look (i + 1) j → Open look i j
Open-back look i j e h x l m = elim (Bool-cases (i == x)) [
  | inl q ↦ subst (λ y. (look y).0 ≡ false) (ground (arith, q)) e
  | inr q ↦ h x (ground (arith, q, l)) m
]

module _ (timeout start : ℕ) (look : ℕ → Bool × ℕ) where
  -- A wait from a look on ends, no later than at the last one that the fuel allows.
  Waits : ℕ → ℕ → Type 0
  Waits fuel i =
      (j : ℕ) × (w : Waited) × (wait_for_view_change fuel timeout look start i ≡ some w)
      × Ends timeout look start j w
      × Open look i j
      × (j < i + fuel)

  -- A look at which the object is not completed and the time is not over.
  Waits-step :
      (fuel i : ℕ)
      → (look i).0 ≡ false
      → ltb (start + timeout) (look i).1 ≡ false
      → Waits fuel (i + 1)
      → Waits (suc fuel) i
  unfolding wait_for_view_change Waits
  Waits-step fuel i e f (j, w, r, h, o, l) =
      (j, w, rw (e, f) r, h, Open-back look i j e o, omega (arith, l))

  Waits-first :
      (fuel i : ℕ)
      → ((look i).0 ≡ false → ltb (start + timeout) (look i).1 ≡ false → Waits (suc fuel) i)
      → Waits (suc fuel) i
  unfolding wait_for_view_change Waits
  Waits-first fuel i later = elim (Bool-cases (look i).0) [
    | inl e ↦ (i, completed_in_time, rw e refl, e, (λ x l m. ground (arith, l, m)), omega arith)
    | inr e ↦ elim (Bool-cases (ltb (start + timeout) (look i).1)) [
      | inl f ↦ (
        i,
        timed_out,
        rw (e, f) refl,
        (e, ground (arith, f)),
        (λ x l m. ground (arith, l, m)),
        omega arith,
      )
      | inr f ↦ later e f
    ]
  ]

  wait-ends : (fuel i : ℕ) → start + timeout < (look (i + fuel)).1 → Waits (suc fuel) i
  wait-ends zero i over =
      let here : i + 0 ≡ i = omega arith in
      Waits-first zero i
        (λ e f. ground (arith, subst (λ x. start + timeout < (look x).1) here over, f))
  wait-ends (suc fuel) i over =
      let next : i + suc fuel ≡ i + 1 + fuel = omega arith in
      Waits-first (suc fuel) i (λ e f.
        Waits-step (suc fuel) i e f
          (wait-ends fuel (i + 1) (subst (λ x. start + timeout < (look x).1) next over)))

-- A wait whose looks are at least 100 ms apart ends within 102 looks: at the first one that finds
-- the object completed, or after more than 10 s at one before which none has found it completed.
pub wait_for_view_change-Ends :
    (start : ℕ) (look : ℕ → Bool × ℕ)
    → ((i : ℕ) → start + 100 * i ≤ (look i).1)
    → (j : ℕ) × (w : Waited) × (wait_for_view_change 102 10000 look start 0 ≡ some w)
      × Ends 10000 look start j w
      × Open look 0 j
      × (j < 102)
unfolding Waits
wait_for_view_change-Ends start look h = wait-ends 10000 start look 101 0 (omega (arith, h 101))
