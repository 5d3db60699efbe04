-- ===== src/Consensus/Quorum/Thresholds.antt =====
-- The votes that core/consensus/quorum.py asks for, and what they guarantee.
use ai_inference_chain.Prelude.{
  ℕ, zero, suc, ◌+◌, ◌-◌, ◌*◌, ◌%◌, ◌≤◌, ◌≡◌, ◌≢◌, refl, ap, ◌&&◌, List, [], ◌∷◌, length, is_member,
  ltb, leb, arith,
}
use ai_inference_chain.Prelude.Dict.{Fresh, IsDistinct}
use ai_inference_chain.Prelude.Quorums.{IsSubset, Shared, quorums-Shared}
use ai_inference_chain.Blockchain.Constants.{Text}
use ai_inference_chain.Consensus.Quorum.{quorum_f, quorum_threshold}

-- Different nodes of the quorum, as many as the threshold asks for.
pub record IsMajority (nodes xs : List Text) : Type 0 where
  pub distinct : IsDistinct xs
  pub known : IsSubset xs nodes
  pub many : quorum_threshold (length nodes) ≤ length xs

-- In a quorum whose size is one more than a multiple of three, any two sets of threshold size share a
-- node that is not among the faulty ones. Condition: at most `quorum_f` of its nodes are faulty.
pub quorum_threshold-Shared :
    (nodes bad xs ys : List Text)
    → IsDistinct nodes
    → length nodes % 3 ≡ 1
    → length bad ≤ quorum_f (length nodes)
    → IsMajority nodes xs
    → IsMajority nodes ys
    → Shared xs ys bad
unfolding quorum_threshold quorum_f
quorum_threshold-Shared nodes bad xs ys d size few x y =
    quorums-Shared (quorum_f (length nodes)) nodes bad xs ys d (omega arith) few x.distinct x.known
      x.many y.distinct y.known y.many

-- `range(k, k + n)`
abbrev pub range : ℕ → ℕ → List ℕ
range k zero = []
range k (suc n) = k ∷ range (suc k) n

length-range : (k n : ℕ) → length (range k n) ≡ n
length-range k zero = refl
length-range k (suc n) = ap suc (length-range (suc k) n)

is_member-range : (z k n : ℕ) → is_member z (range k n) ≡ (leb k z && ltb z (k + n))
is_member-range z k zero = ground arith
is_member-range z k (suc n) = ground (arith, is_member-range z (suc k) n)

range-Fresh : (z k n : ℕ) → suc z ≤ k → Fresh z (range k n)
range-Fresh z k zero h = tt
range-Fresh z k (suc n) h = ground (arith, range-Fresh z (suc k) n)

range-IsDistinct : (k n : ℕ) → IsDistinct (range k n)
range-IsDistinct k zero = tt
range-IsDistinct k (suc n) = (range-Fresh k (suc k) n (omega arith), range-IsDistinct (suc k) n)

range-IsSubset : (k n m : ℕ) → k + n ≤ m → IsSubset (range k n) (range 0 m)
range-IsSubset k zero m h = tt
range-IsSubset k (suc n) m h =
    (ground (arith, is_member-range k 0 m), range-IsSubset (suc k) n m (omega arith))

-- For every other size the guarantee fails: in a quorum of that size there are two sets of threshold
-- size, and at most `quorum_f` nodes, with no node outside these in both sets. Condition: the
-- quorum is not empty.
pub quorum_threshold-split :
    (n : ℕ)
    → 1 ≤ n
    → n % 3 ≢ 1
    → (nodes : List Text) × (bad : List Text) × (xs : List Text) × (ys : List Text) × (length nodes
        ≡ n)
      × IsDistinct nodes
      × (length bad ≤ quorum_f n)
      × IsMajority nodes xs
      × IsMajority nodes ys
      × ¬ Shared xs ys bad
unfolding quorum_threshold quorum_f
quorum_threshold-split n h k =
    let t : ℕ = quorum_threshold n in
    let size = length-range 0 n in
    (
      range 0 n,
      range (n - t) (2 * t - n),
      range 0 t,
      range (n - t) t,
      size,
      range-IsDistinct 0 n,
      omega (arith, length-range (n - t) (2 * t - n)),
      record {
        distinct = range-IsDistinct 0 t;
        known = range-IsSubset 0 t n (omega arith);
        many = omega (arith, size, length-range 0 t);
      },
      record {
        distinct = range-IsDistinct (n - t) t;
        known = range-IsSubset (n - t) t n (omega arith);
        many = omega (arith, size, length-range (n - t) t);
      },
      λ (z, zx, zy, zb). ground (
        arith,
        zx,
        zy,
        zb,
        is_member-range z 0 t,
        is_member-range z (n - t) t,
        is_member-range z (n - t) (2 * t - n),
      ),
    )
