-- ===== src/Consensus/Quorum/Selection.antt =====
-- What `select_quorum` of core/consensus/quorum.py returns.
use ai_inference_chain.Prelude.{
  ℕ, ◌+◌, ◌-◌, ◌*◌, ◌/◌, ◌≤◌, ◌<◌, ◌≡◌, ◌⊎◌, refl, ◌∙◌, inl, inr, true, false, Bool-cases, none,
  some, List, [], ◌∷◌, ltb, length, All, arith,
}
use ai_inference_chain.Blockchain.Constants.{Text}
use ai_inference_chain.Blockchain.Chain.State.{NodeInfo}
use ai_inference_chain.Blockchain.Mempool.{sort, insert_sorted}
use ai_inference_chain.Blockchain.Mempool.Selection.{All-sort}
use ai_inference_chain.Consensus.Quorum.{
  Quorum, Sampling, matches, filter_eligible, committee_size, lower_id, sampled_pool, select_quorum,
  min_ℕ,
}

-- What Python documents of `sample`: it takes that many elements of the population.
pub record IsSampling (sm : Sampling) : Type 1 where
  pub size :
      (seed : Text) (xs : List NodeInfo) (k : ℕ) → k ≤ length xs → length (sm.sample seed xs k) ≡ k
  pub members :
      (P : NodeInfo → Type 0) (seed : Text) (xs : List NodeInfo) (k : ℕ)
      → k ≤ length xs
      → All P xs
      → All P (sm.sample seed xs k)

length-insert_sorted :
    (x : NodeInfo) (xs : List NodeInfo) → length (insert_sorted lower_id x xs) ≡ length xs + 1
unfolding insert_sorted
length-insert_sorted x [] = omega arith
length-insert_sorted x (y ∷ ys) = ground (arith, length-insert_sorted x ys)

length-sort : (xs : List NodeInfo) → length (sort lower_id xs) ≡ length xs
unfolding sort
length-sort [] = refl
length-sort (x ∷ xs) = omega (arith, length-insert_sorted x (sort lower_id xs), length-sort xs)

-- The node passes the request's filters.
abbrev pub IsEligible : Text → Text → NodeInfo → Type 0
IsEligible model dataset n = matches model dataset n ≡ true

filter_eligible-IsEligible :
    (nodes : List NodeInfo) (model dataset : Text)
    → All (IsEligible model dataset) (filter_eligible nodes model dataset)
unfolding filter_eligible
filter_eligible-IsEligible [] model dataset = tt
filter_eligible-IsEligible (n ∷ nodes) model dataset = elim (Bool-cases (matches model dataset n)) [
  | inl e ↦ rw e (e, filter_eligible-IsEligible nodes model dataset)
  | inr e ↦ rw e (filter_eligible-IsEligible nodes model dataset)
]

without_shortlist :
    (sm : Sampling) (pool : List NodeInfo) (k floor : ℕ)
    → sm.shortlist pool k ≡ none
    → sampled_pool sm pool k floor ≡ (false, pool)
unfolding sampled_pool
without_shortlist sm pool k floor e = ground (arith, e)

-- Without a shortlist, a quorum is formed exactly if at least `floor` nodes pass the filters. It
-- then has the nodes that its size says, between `floor` and `ceiling`, and each passes the
-- filters. Conditions: `sample` does what Python documents, floor ≤ ceiling, and there is no
-- shortlist.
pub select_quorum-lem :
    (sm : Sampling) (request block_hash : Text) (eligible : List NodeInfo) (model dataset : Text)
    (target floor ceiling : ℕ)
    → IsSampling sm
    → ((pool : List NodeInfo) → (k : ℕ) → sm.shortlist pool k ≡ none)
    → floor ≤ ceiling
    → ((length (filter_eligible eligible model dataset) < floor)
        × (select_quorum sm request block_hash eligible model dataset target floor ceiling ≡ none))
      ⊎ ((q : Quorum) × (select_quorum sm request block_hash eligible model dataset target floor
              ceiling
            ≡ some q)
          × (length q.nodes ≡ q.quorum_size)
          × (floor ≤ q.quorum_size)
          × (q.quorum_size ≤ ceiling)
          × All (IsEligible model dataset) q.nodes)
unfolding select_quorum committee_size
select_quorum-lem sm request block_hash eligible model dataset target floor ceiling d u fc =
    let pool : List NodeInfo = filter_eligible eligible model dataset in
    let k : ℕ = committee_size (length pool) target floor ceiling in
    let seed : Text = sm.seed_of block_hash request in
    let count : ℕ = min_ℕ k (length pool) in
    let small : count ≤ length pool = ground arith in
    elim (Bool-cases (ltb (length pool) floor)) [
      | inl e ↦ inl (ground (arith, e), rw e refl)
      | inr e ↦
          let all_of_them : count ≡ k = ground (arith, e, fc) in
          inr (
            record {
              nodes = sort lower_id (sm.sample seed pool count);
              quorum_size = k;
              f = (k - 1) / 3;
              threshold = 2 * ((k - 1) / 3) + 1;
              seed = seed;
              ood_biased = false;
            },
            rw (e, without_shortlist sm pool k floor (u pool k)) refl,
            length-sort (sm.sample seed pool count) ∙ d.size seed pool count small ∙ all_of_them,
            ground (arith, fc),
            ground (arith, fc),
            All-sort (IsEligible model dataset) lower_id (sm.sample seed pool count) (
                d.members (IsEligible model dataset) seed pool count small
                  (filter_eligible-IsEligible eligible model dataset)),
          )
    ]
