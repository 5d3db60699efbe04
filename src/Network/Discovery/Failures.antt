-- ===== src/Network/Discovery/Failures.antt =====
-- When core/network/discovery.py drops a peer.
use ai_inference_chain.Prelude.{
  ℕ, zero, suc, ◌+◌, ◌≡◌, refl, sym, ap, subst, ◌∙◌, inl, inr, false, Bool-cases, Option,
  Option-cases, none, some, List, [], ◌∷◌, leb, if◌then◌else◌, if_elim, ◌==◌, arith,
}
use ai_inference_chain.Prelude.Dict.{
  Dict, lookup, insert, erase, keys, IsDistinct, erase-IsDistinct, insert-IsDistinct, lookup-insert,
  lookup-erase_self,
}
use ai_inference_chain.Blockchain.Constants.{Text}
use ai_inference_chain.Network.Discovery.{PeerDiscovery, remove, mark_failure}

lookup-erase_other : (j k : ℕ) (d : Dict ℕ) → (j == k) ≡ false → lookup j (erase k d) ≡ lookup j d
lookup-erase_other j k [] e = refl
lookup-erase_other j k ((i, n) ∷ d) e = ground (arith, e, lookup-erase_other j k d e)

-- So many failures after so many that are on file.
abbrev pub after_failures : ℕ → Option ℕ → Option ℕ
after_failures n none = none
after_failures n (some c) = if leb 5 (c + n) then none else some (c + n)

-- A failure of a URL among the peers.
bump : Text → Dict ℕ → Dict ℕ
bump k d = elim (lookup k d) [
  | none ↦ d
  | some n ↦ if leb 5 (n + 1) then erase k (insert k (n + 1) d) else insert k (n + 1) d
]

bump-IsDistinct : (k : Text) (d : Dict ℕ) → IsDistinct (keys d) → IsDistinct (keys (bump k d))
unfolding bump
bump-IsDistinct k d h = elim (Option-cases (lookup k d)) [
  | inl e ↦ rw (bump, e) h
  | inr (n, e) ↦
      rw (bump, e)
        (if_elim (λ (es : Dict ℕ). IsDistinct (keys es)) (leb 5 (n + 1)) _ _
          (λ q. erase-IsDistinct k _ (insert-IsDistinct k (n + 1) d h))
          (λ q. insert-IsDistinct k (n + 1) d h))
]

lookup-bump_other : (j k : Text) (d : Dict ℕ) → (j == k) ≡ false → lookup j (bump k d) ≡ lookup j d
unfolding bump
lookup-bump_other j k d q = elim (Option-cases (lookup k d)) [
  | inl e ↦ rw (bump, e) refl
  | inr (n, e) ↦
      rw (bump, e)
        (if_elim (λ (es : Dict ℕ). lookup j es ≡ lookup j d) (leb 5 (n + 1)) _ _
          (λ f. lookup-erase_other j k _ q ∙ lookup-insert j k (n + 1) d ∙ rw q refl)
          (λ f. lookup-insert j k (n + 1) d ∙ rw q refl))
]

lookup-bump_self :
    (k : Text) (d : Dict ℕ)
    → IsDistinct (keys d)
    → lookup k (bump k d) ≡ after_failures 1 (lookup k d)
unfolding bump
lookup-bump_self k d h = elim (Option-cases (lookup k d)) [
  | inl e ↦ rw (bump, e) e
  | inr (n, e) ↦ elim (Bool-cases (leb 5 (n + 1))) [
    | inl f ↦ rw (bump, e, f) (lookup-erase_self k _ (insert-IsDistinct k (n + 1) d h))
    | inr f ↦ rw (bump, e, f) (lookup-insert k k (n + 1) d ∙ ground arith)
  ]
]

module _ (rstrip : Text → Text) (sort : List Text → List Text) where
  -- Consecutive failures of a URL.
  unfoldable pub fail : ℕ → Text → PeerDiscovery → PeerDiscovery
  fail zero url d = d
  fail (suc n) url d = fail n url (mark_failure rstrip sort url d)

  peers-mark_failure :
      (k : Text) (d : PeerDiscovery)
      → rstrip k ≡ k
      → (mark_failure rstrip sort k d).peers ≡ bump k d.peers
  unfolding mark_failure remove bump
  peers-mark_failure k d r = elim (Option-cases (lookup k d.peers)) [
    | inl e ↦
        let found : lookup (rstrip k) d.peers ≡ none = ap (λ i. lookup i d.peers) r ∙ e in
        rw (bump, e) (rw (mark_failure, found) refl)
    | inr (n, e) ↦
        let found : lookup (rstrip k) d.peers ≡ some n = ap (λ i. lookup i d.peers) r ∙ e in
        elim (Bool-cases (leb 5 (n + 1))) [
          | inl f ↦
              rw (bump, e, f)
                (rw (mark_failure, found, f)
                  (ap (λ i. erase (rstrip i) (insert i (n + 1) d.peers)) r
                    ∙ ap (λ i. erase i (insert k (n + 1) d.peers)) r))
          | inr f ↦
              rw (bump, e, f) (rw (mark_failure, found, f) (ap (λ i. insert i (n + 1) d.peers) r))
        ]
  ]

  after_failures-suc :
      (n : ℕ) (o : Option ℕ) → after_failures n (after_failures 1 o) ≡ after_failures (suc n) o
  after_failures-suc n none = refl
  after_failures-suc n (some c) = ground arith

  -- A peer is dropped by its fifth failure in a row and by no earlier one, counting those on file, and
  -- the failures of one peer change nothing for another. Conditions: the URL ends in no "/", and the
  -- count on file is below five.
  pub fail_lem :
      (n : ℕ) (k j : Text) (d : PeerDiscovery)
      → rstrip k ≡ k
      → IsDistinct (keys d.peers)
      → after_failures 0 (lookup k d.peers) ≡ lookup k d.peers
      → lookup j (fail n k d).peers
        ≡ (if j == k then after_failures n (lookup k d.peers) else lookup j d.peers)
  unfolding fail
  fail_lem zero k j d r h z = elim (Bool-cases (j == k)) [
    | inl e ↦ let same : j ≡ k = ground (arith, e) in rw e (ap (λ i. lookup i d.peers) same ∙ sym z)
    | inr e ↦ rw e refl
  ]
  fail_lem (suc n) k j d r h z =
      let marked : PeerDiscovery = mark_failure rstrip sort k d in
      let peers : marked.peers ≡ bump k d.peers = peers-mark_failure k d r in
      let self : lookup k marked.peers ≡ after_failures 1 (lookup k d.peers) =
        ap (lookup k) peers ∙ lookup-bump_self k d.peers h in
      let distinct : IsDistinct (keys marked.peers) =
        subst (λ es. IsDistinct (keys es)) (sym peers) (bump-IsDistinct k d.peers h) in
      let below : after_failures 0 (lookup k marked.peers) ≡ lookup k marked.peers =
        ap (after_failures 0) self ∙ after_failures-suc 0 (lookup k d.peers) ∙ sym self in
      fail_lem n k j marked r distinct below ∙ elim (Bool-cases (j == k)) [
        | inl e ↦ rw e (ap (after_failures n) self ∙ after_failures-suc n (lookup k d.peers))
        | inr e ↦ rw e (ap (lookup j) peers ∙ lookup-bump_other j k d.peers e)
      ]
