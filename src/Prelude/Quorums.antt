-- ===== src/Prelude/Quorums.antt =====
-- Counting members: two large quorums share a member outside any small set.
use Prim.Native.Nat.{ℕ, ◌+◌, ◌*◌, ◌≤◌, ◌<◌}
use mathlib.Core.Path.{◌≡◌, refl}
use mathlib.Core.Logic.{inl, inr}
use mathlib.Core.Bool.{true, false, ◌&&◌, not}
use mathlib.Core.List.{List, [], ◌∷◌}
use native.Mathlib.Omega.{arith}
use ai_inference_chain.Prelude.Tests.{if◌then◌else◌, Bool-cases}
use ai_inference_chain.Prelude.Lists.{length, is_member, All}
use ai_inference_chain.Prelude.Dict.{Fresh, IsDistinct}

-- How many of `nodes` are in `xs`, and how many are in both.
abbrev hits : List ℕ → List ℕ → ℕ
hits xs [] = 0
hits xs (z ∷ nodes) = (if is_member z xs then 1 else 0) + hits xs nodes

abbrev both : List ℕ → List ℕ → List ℕ → ℕ
both xs ys [] = 0
both xs ys (z ∷ nodes) = (if is_member z xs && is_member z ys then 1 else 0) + both xs ys nodes

abbrev pub IsSubset : List ℕ → List ℕ → Type 0
IsSubset xs nodes = All (λ x. is_member x nodes ≡ true) xs

Fresh-is_member : (x : ℕ) (xs : List ℕ) → Fresh x xs → is_member x xs ≡ false
Fresh-is_member x [] h = refl
Fresh-is_member x (y ∷ ys) h = ground (arith, Fresh-is_member x ys h.1)

hits_mono : (x : ℕ) (xs nodes : List ℕ) → hits xs nodes ≤ hits (x ∷ xs) nodes
hits_mono x xs [] = omega arith
hits_mono x xs (z ∷ nodes) = ground (arith, hits_mono x xs nodes)

hits-cons_new :
    (x : ℕ) (xs nodes : List ℕ)
    → is_member x xs ≡ false
    → is_member x nodes ≡ true
    → hits xs nodes + 1 ≤ hits (x ∷ xs) nodes
hits-cons_new x xs [] f e = cc
hits-cons_new x xs (z ∷ nodes) f e =
    ground (arith, hits-cons_new x xs nodes f, hits_mono x xs nodes)

length-le-hits : (xs nodes : List ℕ) → IsDistinct xs → IsSubset xs nodes → length xs ≤ hits xs nodes
length-le-hits [] nodes d s = omega arith
length-le-hits (x ∷ xs) nodes d s = omega (
  arith,
  hits-cons_new x xs nodes (Fresh-is_member x xs d.0) s.0,
  length-le-hits xs nodes d.1 s.1,
)

hits-cons_absent :
    (b : ℕ) (bad nodes : List ℕ) → Fresh b nodes → hits (b ∷ bad) nodes ≤ hits bad nodes
hits-cons_absent b bad [] h = omega arith
hits-cons_absent b bad (z ∷ nodes) h = ground (arith, hits-cons_absent b bad nodes h.1)

hits-cons_le :
    (b : ℕ) (bad nodes : List ℕ) → IsDistinct nodes → hits (b ∷ bad) nodes ≤ hits bad nodes + 1
hits-cons_le b bad [] d = omega arith
hits-cons_le b bad (z ∷ nodes) d =
    ground (arith, hits-cons_le b bad nodes d.1, hits-cons_absent b bad nodes, d.0)

hits-nil : (nodes : List ℕ) → hits [] nodes ≡ 0
hits-nil [] = refl
hits-nil (z ∷ nodes) = omega (arith, hits-nil nodes)

hits-le-length : (bad nodes : List ℕ) → IsDistinct nodes → hits bad nodes ≤ length bad
hits-le-length [] nodes d = omega (arith, hits-nil nodes)
hits-le-length (b ∷ bad) nodes d =
    omega (arith, hits-cons_le b bad nodes d, hits-le-length bad nodes d)

hits-both : (xs ys nodes : List ℕ) → hits xs nodes + hits ys nodes ≤ length nodes + both xs ys nodes
hits-both xs ys [] = omega arith
hits-both xs ys (z ∷ nodes) = ground (arith, hits-both xs ys nodes)

-- A node in both lists that is not among the bad ones.
abbrev pub Shared : List ℕ → List ℕ → List ℕ → Type 0
Shared xs ys bad =
    (z : ℕ) × (is_member z xs ≡ true) × (is_member z ys ≡ true) × (is_member z bad ≡ false)

both-Shared : (xs ys bad nodes : List ℕ) → hits bad nodes < both xs ys nodes → Shared xs ys bad
both-Shared xs ys bad [] h = absurd (omega arith)
both-Shared xs ys bad (z ∷ nodes) h =
    elim (Bool-cases (is_member z xs && is_member z ys && not (is_member z bad))) [
      | inl e ↦ (z, ground (arith, e), ground (arith, e), ground (arith, e))
      | inr e ↦ both-Shared xs ys bad nodes (ground (arith, e, h))
    ]

-- Among at most 3f+1 nodes, two sets of 2f+1 different nodes share one that is not among f given
-- ones.
pub quorums-Shared :
    (f : ℕ) (nodes bad xs ys : List ℕ)
    → IsDistinct nodes
    → length nodes ≤ 3 * f + 1
    → length bad ≤ f
    → IsDistinct xs
    → IsSubset xs nodes
    → 2 * f + 1 ≤ length xs
    → IsDistinct ys
    → IsSubset ys nodes
    → 2 * f + 1 ≤ length ys
    → Shared xs ys bad
quorums-Shared f nodes bad xs ys dn ln lb dx sx lx dy sy ly = both-Shared xs ys bad nodes (
    omega (
      arith,
      length-le-hits xs nodes dx sx,
      length-le-hits ys nodes dy sy,
      hits-le-length bad nodes dn,
      hits-both xs ys nodes,
    ))
