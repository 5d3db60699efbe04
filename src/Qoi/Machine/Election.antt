-- ===== src/Qoi/Machine/Election.antt =====
-- `_elect_new_primary` of core/qoi/state_machine.py: the sender of a VIEW_CHANGE with no better one.
use ai_inference_chain.Prelude.{
  ◌≡◌, ◌≤◌, ◌<◌, ◌⊎◌, ltb, refl, sym, ap, subst, inl, inr, true, false, List, [], ◌∷◌, All,
  if◌then◌else◌, arith, Bool-cases, List-cases,
}
use ai_inference_chain.Prelude.Dict.{values}
use ai_inference_chain.Qoi.Quality.{Floats}
use ai_inference_chain.Qoi.Messages.{ViewChangeMsg}
use ai_inference_chain.Qoi.Machine.{Machine}
use ai_inference_chain.Qoi.Machine.ViewChange.{before, least, elect_new_primary}

before_trans :
    (a b c : ViewChangeMsg) → before b a ≡ false → before c b ≡ false → before c a ≡ false
before_trans a b c h k = ground (arith, h, k)

before_irrefl : (a : ViewChangeMsg) → before a a ≡ false
before_irrefl a = ground arith

before_asym : (a b : ViewChangeMsg) → before a b ≡ true → before b a ≡ false
before_asym a b h = ground (arith, h)

-- The messages that are not before `a`.
abbrev NotBefore : ViewChangeMsg → ViewChangeMsg → Type 0
NotBefore a m = before m a ≡ false

-- `a` is `best` or one of the messages.
abbrev pub IsAmong : ViewChangeMsg → List ViewChangeMsg → Type 0
IsAmong a [] = ⊥
IsAmong a (m ∷ ms) = (a ≡ m) ⊎ IsAmong a ms

abbrev better : ViewChangeMsg → ViewChangeMsg → ViewChangeMsg
better m best = if before m best then m else best

better-NotBefore :
    (m best : ViewChangeMsg) → NotBefore (better m best) best × NotBefore (better m best) m
better-NotBefore m best = elim (Bool-cases (before m best)) [
  | inl e ↦ ground (arith, e, before_asym m best e, before_irrefl m)
  | inr e ↦ ground (arith, e, before_irrefl best)
]

least-lowest :
    (best : ViewChangeMsg) (ms : List ViewChangeMsg) → All (NotBefore (least best ms)) (best ∷ ms)
unfolding least
least-lowest best [] = (before_irrefl best, tt)
least-lowest best (m ∷ ms) =
    let b : ViewChangeMsg = better m best in
    let (low, rest) = least-lowest b ms in
    (
      before_trans (least b ms) b best low (better-NotBefore m best).0,
      (before_trans (least b ms) b m low (better-NotBefore m best).1, rest),
    )

better-cases : (m best : ViewChangeMsg) → (better m best ≡ m) ⊎ (better m best ≡ best)
better-cases m best = elim (Bool-cases (before m best)) [
  | inl e ↦ inl (ap (λ t. if t then m else best) e)
  | inr e ↦ inr (ap (λ t. if t then m else best) e)
]

weaken :
    (a best m : ViewChangeMsg) (ms : List ViewChangeMsg)
    → IsAmong a (best ∷ ms)
    → IsAmong a (best ∷ m ∷ ms)
weaken a best m ms (inl p) = inl p
weaken a best m ms (inr q) = inr (inr q)

least-IsAmong :
    (best : ViewChangeMsg) (ms : List ViewChangeMsg) → IsAmong (least best ms) (best ∷ ms)
unfolding least
least-IsAmong best [] = inl refl
least-IsAmong best (m ∷ ms) = elim (better-cases m best) [
  | inl e ↦ inr (subst (λ b. IsAmong (least b ms) (m ∷ ms)) (sym e) (least-IsAmong m ms))
  | inr e ↦
      subst (λ b. IsAmong (least b ms) (best ∷ m ∷ ms)) (sym e)
        (weaken (least best ms) best m ms (least-IsAmong best ms))
]

-- `a` has the greater sequence number, or the same one and no greater sender.
abbrev pub LeadsOver : ViewChangeMsg → ViewChangeMsg → Type 0
LeadsOver a m =
    (m.last_seq < a.last_seq)
    ⊎ ((m.last_seq ≡ a.last_seq) × (a.header.sender_id ≤ m.header.sender_id))

NotBefore-LeadsOver : (a m : ViewChangeMsg) → NotBefore a m → LeadsOver a m
NotBefore-LeadsOver a m h = elim (Bool-cases (ltb m.last_seq a.last_seq)) [
  | inl e ↦ inl (ground (arith, e))
  | inr e ↦ inr (ground (arith, e, h), ground (arith, e, h))
]

All-LeadsOver :
    (a : ViewChangeMsg) (ms : List ViewChangeMsg) → All (NotBefore a) ms → All (LeadsOver a) ms
All-LeadsOver a [] h = tt
All-LeadsOver a (m ∷ ms) h = (NotBefore-LeadsOver a m h.0, All-LeadsOver a ms h.1)

-- With some VIEW_CHANGE on file, the new primary is the sender of one of them, whose last sequence
-- number is greater than that of every one on file, or the same with a sender that is not greater:
-- the highest sequence number wins, and among equal ones the least name. With none on file it is
-- the node itself.
pub elect_new_primary-lem :
    (fl : Floats) (m : Machine fl)
    → ((v : ViewChangeMsg) × (v.header.sender_id ≡ elect_new_primary fl m)
        × IsAmong v (values m.view_changes)
        × All (LeadsOver v) (values m.view_changes))
      ⊎ ((values m.view_changes ≡ []) × (elect_new_primary fl m ≡ m.node_id))
unfolding elect_new_primary
elect_new_primary-lem fl m = elim (List-cases (values m.view_changes)) [
  | inl e ↦
      inr (e, ap (λ vs. elim vs [ [] ↦ m.node_id | v ∷ ms ↦ (least v ms).header.sender_id ]) e)
  | inr (v, ms, e) ↦ inl (
    least v ms,
    sym (ap (λ vs. elim vs [ [] ↦ m.node_id | w ∷ ws ↦ (least w ws).header.sender_id ]) e),
    subst (IsAmong (least v ms)) (sym e) (least-IsAmong v ms),
    subst (All (LeadsOver (least v ms))) (sym e)
        (All-LeadsOver (least v ms) (v ∷ ms) (least-lowest v ms)),
  )
]
