-- ===== src/Node/Pom/Challenge.antt =====
-- The indices that core/node/pom.py draws for a challenge.
use ai_inference_chain.Prelude.{
  ℕ, ◌≢◌, zero, suc, ◌+◌, ◌%◌, ◌≤◌, ◌<◌, ◌≡◌, ◌⊎◌, refl, sym, ap, ◌∙◌, inl, inr, true, false,
  Bool-cases, Option, none, some, List, [], ◌∷◌, ◌++◌, length, length-append, take, All, All-append,
  ltb, leb, ◌==◌, if◌then◌else◌, arith,
}
use ai_inference_chain.Prelude.Dict.{IsDistinct, Fresh}
use ai_inference_chain.Node.Pom.{is_in, absorb, collect_indices, generate_challenge_indices}

-- The numbers of the digests in their order, each modulo the size where it stands first.
abbrev pub grow : ℕ → List ℕ → List ℕ → List ℕ
grow size [] indices = indices
grow size (v ∷ vs) indices =
    grow size vs (if is_in (v % size) indices then indices else indices ++ v % size ∷ [])

-- The numbers of so many digests from a counter on.
abbrev pub stream : (ℕ → List ℕ) → ℕ → ℕ → List ℕ
stream digest zero counter = []
stream digest (suc k) counter = digest counter ++ stream digest k (counter + 1)

append-snoc : (xs : List ℕ) (v : ℕ) (ys : List ℕ) → (xs ++ v ∷ []) ++ ys ≡ xs ++ v ∷ ys
append-snoc [] v ys = refl
append-snoc (x ∷ xs) v ys = ap (λ es. x ∷ es) (append-snoc xs v ys)

append_assoc : (xs ys zs : List ℕ) → (xs ++ ys) ++ zs ≡ xs ++ (ys ++ zs)
append_assoc [] ys zs = refl
append_assoc (x ∷ xs) ys zs = ap (λ es. x ∷ es) (append_assoc xs ys zs)

append_nil : (xs : List ℕ) → xs ++ [] ≡ xs
append_nil [] = refl
append_nil (x ∷ xs) = ap (λ es. x ∷ es) (append_nil xs)

take-append : (xs ys : List ℕ) → take (length xs) (xs ++ ys) ≡ xs
take-append [] ys = refl
take-append (x ∷ xs) ys = ap (λ es. x ∷ es) (take-append xs ys)

take-all : (n : ℕ) (xs : List ℕ) → length xs ≡ n → take n xs ≡ xs
take-all n xs e =
    ap (λ k. take k xs) (sym e) ∙ ap (take (length xs)) (sym (append_nil xs)) ∙ take-append xs []

grow-extends : (size : ℕ) (vs xs : List ℕ) → (ys : List ℕ) × (grow size vs xs ≡ xs ++ ys)
grow-extends size [] xs = ([], sym (append_nil xs))
grow-extends size (v ∷ vs) xs = elim (Bool-cases (is_in (v % size) xs)) [
  | inl e ↦ rw e (grow-extends size vs xs)
  | inr e ↦ (
    v % size ∷ (grow-extends size vs (xs ++ v % size ∷ [])).0,
    rw e ((grow-extends size vs (xs ++ v % size ∷ [])).1 ∙ append-snoc xs (v % size) _),
  )
]

grow-append :
    (size : ℕ) (us vs xs : List ℕ) → grow size (us ++ vs) xs ≡ grow size vs (grow size us xs)
grow-append size [] vs xs = refl
grow-append size (u ∷ us) vs xs = grow-append size us vs _

-- A digest of which so much was taken: the whole, or up to the n-th index.
Taken : ℕ → List ℕ → List ℕ → Type 0
Taken n got whole =
    ((got ≡ whole) × (length got < n)) ⊎ ((length got ≡ n) × (ys : List ℕ) × (whole ≡ got ++ ys))

Taken-step :
    (size n : ℕ) (vs xs : List ℕ)
    → length xs ≤ n
    → (length xs < n → Taken n (absorb size n vs xs) (grow size vs xs))
    → Taken n (if length xs == n then xs else absorb size n vs xs) (grow size vs xs)
unfolding Taken
Taken-step size n vs xs l h = elim (Bool-cases (length xs == n)) [
  | inl e ↦ rw e (inr (ground (arith, e), (grow-extends size vs xs).0, (grow-extends size vs xs).1))
  | inr e ↦ rw e (h (ground (arith, e, l)))
]

length-step :
    (v : ℕ) (xs : List ℕ) → length (if is_in v xs then xs else xs ++ v ∷ []) ≤ length xs + 1
length-step v xs = ground (arith, length-append xs (v ∷ []))

absorb-Taken :
    (size n : ℕ) (vs xs : List ℕ) → length xs < n → Taken n (absorb size n vs xs) (grow size vs xs)
unfolding absorb Taken
absorb-Taken size n [] xs l = inl (refl, l)
absorb-Taken size n (v ∷ vs) xs l =
    Taken-step size n vs _ (omega (arith, length-step (v % size) xs, l)) (absorb-Taken size n vs _)

collect-full :
    (size : ℕ) (digest : ℕ → List ℕ) (n fuel counter : ℕ) (xs : List ℕ)
    → length xs ≡ n
    → collect_indices size digest n fuel counter xs ≡ some xs
unfolding collect_indices
collect-full size digest n zero counter xs e = ground (arith, e, take-all n xs e)
collect-full size digest n (suc fuel) counter xs e = ground (arith, e, take-all n xs e)

-- What the loop returns, against all the numbers of the digests that the fuel allows.
abbrev pub outcome : ℕ → List ℕ → Option (List ℕ)
outcome n all = if leb n (length all) then some (take n all) else none

outcome-full : (n : ℕ) (xs ys : List ℕ) → length xs ≡ n → outcome n (xs ++ ys) ≡ some xs
outcome-full n xs ys e =
    let size_le : leb n (length (xs ++ ys)) ≡ true = ground (arith, length-append xs ys, e) in
    rw size_le (ap some (ap (λ k. take k (xs ++ ys)) (sym e) ∙ take-append xs ys))

collect_indices-outcome :
    (size : ℕ) (digest : ℕ → List ℕ) (n fuel counter : ℕ) (xs : List ℕ)
    → length xs ≤ n
    → collect_indices size digest n fuel counter xs
      ≡ outcome n (grow size (stream digest fuel counter) xs)
unfolding collect_indices Taken
collect_indices-outcome size digest n zero counter xs l = ground (arith, l, take-all n xs)
collect_indices-outcome size digest n (suc fuel) counter xs l =
    elim (Bool-cases (ltb (length xs) n)) [
      | inl e ↦ rw e (elim (absorb-Taken size n (digest counter) xs (ground (arith, e))) [
        | inl (q, m) ↦
            collect_indices-outcome size digest n fuel (counter + 1) _ (omega (arith, m))
            ∙ ap (λ is. outcome n (grow size (stream digest fuel (counter + 1)) is)) q
            ∙ ap (outcome n) (sym (grow-append size (digest counter) _ xs))
        | inr (m, ys, q) ↦
            let more =
              grow-extends size (stream digest fuel (counter + 1))
                (grow size (digest counter) xs) in
            collect-full size digest n fuel (counter + 1) _ m
            ∙ sym (outcome-full n (absorb size n (digest counter) xs) (ys ++ more.0) m)
            ∙ ap (outcome n) (
                sym (append_assoc (absorb size n (digest counter) xs) ys more.0)
                ∙ ap (λ is. is ++ more.0) (sym q)
                ∙ sym more.1
                ∙ sym (grow-append size (digest counter) _ xs))
      ])
      | inr e ↦
          let full : length xs ≡ n = ground (arith, e, l) in
          let more = grow-extends size (digest counter ++ stream digest fuel (counter + 1)) xs in
          rw e (
            ap some (take-all n xs full)
            ∙ sym (outcome-full n xs more.0 full)
            ∙ ap (outcome n) (sym more.1))
    ]

Fresh-snoc : (k v : ℕ) (xs : List ℕ) → Fresh k xs → k ≢ v → Fresh k (xs ++ v ∷ [])
Fresh-snoc k v [] f n = (n, tt)
Fresh-snoc k v (x ∷ xs) f n = (f.0, Fresh-snoc k v xs f.1 n)

IsDistinct-snoc :
    (v : ℕ) (xs : List ℕ) → IsDistinct xs → is_in v xs ≡ false → IsDistinct (xs ++ v ∷ [])
IsDistinct-snoc v [] d e = (tt, tt)
IsDistinct-snoc v (x ∷ xs) d e = (
  Fresh-snoc x v xs d.0 (λ q. ground (arith, e, q)),
  IsDistinct-snoc v xs d.1 (ground (arith, e)),
)

-- Indices that are different and below the size.
Valid : ℕ → List ℕ → Type 0
Valid size xs = IsDistinct xs × All (λ i. i < size) xs

grow-Valid : (m : ℕ) (vs xs : List ℕ) → Valid (suc m) xs → Valid (suc m) (grow (suc m) vs xs)
unfolding Valid
grow-Valid m [] xs h = h
grow-Valid m (v ∷ vs) xs h = elim (Bool-cases (is_in (v % suc m) xs)) [
  | inl e ↦ rw e (grow-Valid m vs xs h)
  | inr e ↦ rw e (
      grow-Valid m vs (xs ++ v % suc m ∷ [])
        (IsDistinct-snoc _ xs h.0 e, All-append _ xs _ h.1 (omega arith, tt)))
]

Fresh-take : (k n : ℕ) (xs : List ℕ) → Fresh k xs → Fresh k (take n xs)
Fresh-take k zero xs f = tt
Fresh-take k (suc n) [] f = tt
Fresh-take k (suc n) (x ∷ xs) f = (f.0, Fresh-take k n xs f.1)

take-Valid : (size n : ℕ) (xs : List ℕ) → Valid size xs → Valid size (take n xs)
unfolding Valid
take-Valid size zero xs h = (tt, tt)
take-Valid size (suc n) [] h = (tt, tt)
take-Valid size (suc n) (x ∷ xs) h =
    let rest = take-Valid size n xs (h.0.1, h.1.1) in
    ((Fresh-take x n xs h.0.0, rest.0), (h.1.0, rest.1))

length-take : (n : ℕ) (xs : List ℕ) → n ≤ length xs → length (take n xs) ≡ n
length-take zero xs l = refl
length-take (suc n) [] l = ground (arith, l)
length-take (suc n) (x ∷ xs) l = ap suc (length-take n xs (omega (arith, l)))

-- The indices of a challenge are the first n different remainders of the numbers of the digests,
-- whatever stops the loops; on a number of digests with fewer of them, the loop does not end.
generate_challenge_indices_lem :
    (size : ℕ) (digest : ℕ → List ℕ) (n fuel : ℕ)
    → generate_challenge_indices size digest n fuel
      ≡ outcome n (grow size (stream digest fuel 0) [])
unfolding generate_challenge_indices
generate_challenge_indices_lem size digest n fuel =
    collect_indices-outcome size digest n fuel 0 [] (omega arith)

-- Where so many digests have n different remainders, a challenge of a data set that is not empty has
-- n indices, all different, and each of them is one of the data set.
pub generate_challenge_indices-IsDistinct :
    (m : ℕ) (digest : ℕ → List ℕ) (n fuel : ℕ)
    → n ≤ length (grow (suc m) (stream digest fuel 0) [])
    → (indices : List ℕ) × (generate_challenge_indices (suc m) digest n fuel ≡ some indices)
      × (length indices ≡ n)
      × IsDistinct indices
      × All (λ i. i < suc m) indices
unfolding Valid
generate_challenge_indices-IsDistinct m digest n fuel l =
    let all : List ℕ = grow (suc m) (stream digest fuel 0) [] in
    let enough : leb n (length all) ≡ true = ground (arith, l) in
    let valid = take-Valid (suc m) n all (grow-Valid m (stream digest fuel 0) [] (tt, tt)) in
    (
      take n all,
      generate_challenge_indices_lem (suc m) digest n fuel ∙ rw enough refl,
      length-take n all l,
      valid.0,
      valid.1,
    )
