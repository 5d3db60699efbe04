-- ===== src/Qoi/Scheduler/Delivery.antt =====
-- What a round of core/qoi/message_scheduler.py delivers, and what it leaves.
use ai_inference_chain.Prelude.{
  ℕ, ◌≡◌, refl, ap, ◌∙◌, sym, subst, inl, inr, Bool-cases, if_elim, Bool, not, ◌&&◌, List, [], ◌∷◌,
  ◌++◌, leb, keep, arith,
}
use ai_inference_chain.Prelude.Dict.{
  Dict, erase, keys, values, IsDistinct, Fresh, erase-IsDistinct, append-snoc, erase-middle,
  IsDistinct-middle,
}
use ai_inference_chain.Qoi.Scheduler.{
  ScheduledMessage, Handler, delivery_time, is_delivered, deliver_each, deliver,
}

-- The messages that are due, and those that stay.
abbrev pub is_due : ℕ → ScheduledMessage → Bool
is_due now m = not (is_delivered m) && leb (delivery_time m) now

abbrev pub due : ℕ → Dict ScheduledMessage → List ScheduledMessage
due now queue = keep (is_due now) (values queue)

abbrev pub staying : ℕ → (ScheduledMessage → Bool) → Dict ScheduledMessage → Dict ScheduledMessage
staying now returns queue = keep (λ e. not (is_due now e.1 && returns e.1)) queue

-- A handler that schedules nothing.
abbrev pub quiet : (ScheduledMessage → Bool) → Handler
quiet returns m queue = (returns m, queue)

deliver_each-quiet :
    (now : ℕ) (returns : ScheduledMessage → Bool) (kept todo : Dict ScheduledMessage)
    → IsDistinct (keys (kept ++ todo))
    → deliver_each now (quiet returns) todo (kept ++ todo)
      ≡ (due now todo, kept ++ staying now returns todo)
unfolding deliver_each
deliver_each-quiet now returns kept [] d = refl
deliver_each-quiet now returns kept ((k, m) ∷ todo) d =
    let gone : erase k (kept ++ (k, m) ∷ todo) ≡ kept ++ todo =
      erase-middle k m kept todo (IsDistinct-middle k m kept todo d) in
    let shifted : (kept ++ (k, m) ∷ []) ++ todo ≡ kept ++ (k, m) ∷ todo =
      append-snoc kept (k, m) todo in
    ground (
      arith,
      gone,
      shifted,
      append-snoc kept (k, m) (staying now returns todo),
      deliver_each-quiet now returns kept todo
          (subst (λ es. IsDistinct (keys es)) gone (erase-IsDistinct k _ d)),
      deliver_each-quiet now returns (kept ++ (k, m) ∷ []) todo
          (subst (λ es. IsDistinct (keys es)) (sym shifted) d),
    )

keep-Fresh :
    (k : ℕ) (p : ℕ × ScheduledMessage → Bool) (d : Dict ScheduledMessage)
    → Fresh k (keys d)
    → Fresh k (keys (keep p d))
keep-Fresh k p [] f = tt
keep-Fresh k p (e ∷ d) f =
    if_elim (λ es. Fresh k (keys es)) (p e) _ _ (λ q. (f.0, keep-Fresh k p d f.1))
      (λ q. keep-Fresh k p d f.1)

keep-IsDistinct :
    (p : ℕ × ScheduledMessage → Bool) (d : Dict ScheduledMessage)
    → IsDistinct (keys d)
    → IsDistinct (keys (keep p d))
keep-IsDistinct p [] h = tt
keep-IsDistinct p (e ∷ d) h =
    if_elim (λ es. IsDistinct (keys es)) (p e) _ _
      (λ q. (keep-Fresh e.0 p d h.0, keep-IsDistinct p d h.1)) (λ q. keep-IsDistinct p d h.1)

due-staying :
    (now : ℕ) (returns : ScheduledMessage → Bool) (d : Dict ScheduledMessage)
    → due now (staying now returns d) ≡ keep (λ m. not (returns m)) (due now d)
due-staying now returns [] = refl
due-staying now returns ((k, m) ∷ d) = elim (Bool-cases (is_due now m)) [
  | inl e ↦ elim (Bool-cases (returns m)) [
    | inl f ↦ rw (e, f) (due-staying now returns d)
    | inr f ↦ rw (e, f, due-staying now returns d) (rw e refl)
  ]
  | inr e ↦ rw (e, due-staying now returns d) (rw e refl)
]

-- A round calls the handlers of exactly the messages whose time has come, each once and in the order
-- in which they were scheduled; it leaves the others and those whose handlers raise, in their order.
-- A second round at the same time calls exactly the handlers that raised. Condition: the handlers
-- schedule nothing.
pub deliver-quiet :
    (now : ℕ) (returns : ScheduledMessage → Bool) (queue : Dict ScheduledMessage)
    → IsDistinct (keys queue)
    → (deliver now (quiet returns) queue ≡ (due now queue, staying now returns queue))
      × ((deliver now (quiet returns) (deliver now (quiet returns) queue).1).0
          ≡ keep (λ m. not (returns m)) (due now queue))
unfolding deliver
deliver-quiet now returns queue d =
    let left : IsDistinct (keys (staying now returns queue)) = keep-IsDistinct _ queue d in
    let once = deliver_each-quiet now returns [] queue d in
    let again = deliver_each-quiet now returns [] (staying now returns queue) left in
    (once, rw once (ap (λ r. r.0) again ∙ due-staying now returns queue))
