-- ===== src/Qoi/ViewChanger/Objects.antt =====
-- Lists of the objects and of the events of core/qoi/view_changer.py, and how they are counted.
use ai_inference_chain.Prelude.{
  ℕ, zero, suc, ◌+◌, ◌≤◌, ◌≡◌, subst, Bool, some, List, [], ◌∷◌, ◌++◌, length, get_elem?, All,
  arith, if◌then◌else◌,
}
use ai_inference_chain.Prelude.Dict.{Dict, insert}
use ai_inference_chain.Qoi.ViewChanger.{
  ViewChangeState, Event, view_change_event, new_view_event, set_at,
}

module _ {A : Type 0} where
  pub All-set_at :
      (P : A → Type 0) (i : ℕ) (x : A) (xs : List A) → P x → All P xs → All P (set_at i x xs)
  All-set_at P i x [] p h = tt
  All-set_at P zero x (y ∷ ys) p h = (p, h.1)
  All-set_at P (suc i) x (y ∷ ys) p h = (h.0, All-set_at P i x ys p h.1)

  pub All-get_elem? :
      (P : A → Type 0) (i : ℕ) (x : A) (xs : List A) → All P xs → get_elem? xs i ≡ some x → P x
  All-get_elem? P i x [] h e = ground (arith, e)
  All-get_elem? P zero x (y ∷ ys) h e = subst P (ground (arith, e)) h.0
  All-get_elem? P (suc i) x (y ∷ ys) h e = All-get_elem? P i x ys h.1 e

pub length-insert_ge : (k : ℕ) (v : Bool) (d : Dict Bool) → length d ≤ length (insert k v d)
length-insert_ge k v [] = omega arith
length-insert_ge k v ((j, w) ∷ d) = ground (arith, length-insert_ge k v d)

-- How many of the objects are completed, and how many NEW_VIEW events there are.
abbrev pub completed_objects : List ViewChangeState → ℕ
completed_objects [] = 0
completed_objects (s ∷ ss) = (if s.completed then 1 else 0) + completed_objects ss

abbrev pub new_view_events : List Event → ℕ
new_view_events [] = 0
new_view_events (view_change_event node k view ∷ es) = new_view_events es
new_view_events (new_view_event k view ∷ es) = suc (new_view_events es)

pub new_view_events-append :
    (es fs : List Event) → new_view_events (es ++ fs) ≡ new_view_events es + new_view_events fs
new_view_events-append [] fs = omega arith
new_view_events-append (view_change_event node k view ∷ es) fs =
    omega (arith, new_view_events-append es fs)
new_view_events-append (new_view_event k view ∷ es) fs = omega (arith, new_view_events-append es fs)

pub completed_objects-append :
    (ss us : List ViewChangeState)
    → completed_objects (ss ++ us) ≡ completed_objects ss + completed_objects us
completed_objects-append [] us = omega arith
completed_objects-append (s ∷ ss) us = omega (arith, completed_objects-append ss us)

pub completed_objects-set_at :
    (i : ℕ) (s s' : ViewChangeState) (ss : List ViewChangeState)
    → get_elem? ss i ≡ some s
    → completed_objects (set_at i s' ss) + (if s.completed then 1 else 0)
      ≡ completed_objects ss + (if s'.completed then 1 else 0)
completed_objects-set_at i s s' [] e = ground (arith, e)
completed_objects-set_at zero s s' (u ∷ ss) e = ground (arith, e)
completed_objects-set_at (suc i) s s' (u ∷ ss) e =
    omega (arith, completed_objects-set_at i s s' ss e)
