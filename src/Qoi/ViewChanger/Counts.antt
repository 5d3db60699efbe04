-- ===== src/Qoi/ViewChanger/Counts.antt =====
-- What stays true of a ViewChanger of core/qoi/view_changer.py over any calls.
use ai_inference_chain.Prelude.{
  ℕ, suc, ◌≡◌, refl, sym, ap, ◌∙◌, inl, inr, Bool, true, false, Option, Option-cases, none, some,
  List, [], ◌∷◌, length, get_elem?, All, All-append, arith, if◌then◌else◌, if_elim,
}
use ai_inference_chain.Prelude.Int.{ℤ, pos, ◌+ℤ◌, ◌≤ℤ◌}
use ai_inference_chain.Prelude.Dict.{keys, lookup, contains, IsDistinct, insert-IsDistinct}
use ai_inference_chain.Blockchain.Constants.{Text}
use ai_inference_chain.Qoi.ViewChanger.Objects.{
  All-set_at, All-get_elem?, length-insert_ge, completed_objects, new_view_events,
  new_view_events-append, completed_objects-append, completed_objects-set_at,
}
use ai_inference_chain.Qoi.ViewChanger.{
  ViewChanger, ViewChangeState, ViewChangeData, new_view_event, new_changer, votes_needed, set_at,
  begin, call_back, initiate_view_change, with_vote, is_final, complete, settle, file_vote, ensure,
  receive, handle_view_change_msg, clear_view_change, set_view_changed_callback,
}

-- An object that is completed has votes of enough different nodes.
abbrev pub Backed : ℕ → ViewChangeState → Type 0
Backed n s =
    IsDistinct (keys s.view_change_votes)
    × (s.completed ≡ true → votes_needed n ≤ℤ pos (length s.view_change_votes))

pub record Sound (n : ℕ) (c : ViewChanger) : Type 0 where
  pub replicas : c.total_replicas ≡ n
  pub has_bus : c.event_bus ≡ true
  pub backed : All (Backed n) c.heap
  pub counted : new_view_events c.published ≡ completed_objects c.heap

begin-Sound :
    (n now : ℕ) (k : Text) (old new : ℤ) (c : ViewChanger)
    → Sound n c
    → Sound n (begin now k old new c)
begin-Sound n now k old new c h = record {
  replicas = h.replicas;
  has_bus = h.has_bus;
  backed = All-append (Backed n) c.heap _ h.backed ((tt, λ e. ground (arith, e)), tt);
  counted = grind (arith, h.counted, completed_objects-append c.heap);
}

with_vote-Backed :
    (n : ℕ) (node : Option Text) (s : ViewChangeState) → Backed n s → Backed n (with_vote node s)
with_vote-Backed n none s h = h
with_vote-Backed n (some node) s h = (
  insert-IsDistinct node true s.view_change_votes h.0,
  λ e. omega (arith, h.1 e, length-insert_ge node true s.view_change_votes),
)

with_vote-completed :
    (node : Option Text) (s : ViewChangeState) → (with_vote node s).completed ≡ s.completed
with_vote-completed none s = refl
with_vote-completed (some node) s = refl

call_back-Sound :
    (n : ℕ) (k : Text) (view : ℤ) (c : ViewChanger) → Sound n c → Sound n (call_back k view c)
call_back-Sound n k view c h =
    if_elim (Sound n) c.on_view_changed _ _
      (λ q. record {
        replicas = h.replicas;
        has_bus = h.has_bus;
        backed = h.backed;
        counted = h.counted;
      })
      (λ q. h)

is_final_parts :
    (n : ℕ) (s : ViewChangeState)
    → is_final n s ≡ true
    → (votes_needed n ≤ℤ pos (length s.view_change_votes)) × (s.completed ≡ false)
is_final_parts n s f = ground (arith, f)

complete-Sound :
    (n i : ℕ) (k : Text) (view : ℤ) (s s' : ViewChangeState) (c : ViewChanger)
    → Sound n c
    → get_elem? c.heap i ≡ some s
    → s.completed ≡ false
    → IsDistinct (keys s'.view_change_votes)
    → votes_needed n ≤ℤ pos (length s'.view_change_votes)
    → Sound n (complete i k view s' c)
unfolding complete
complete-Sound n i k view s s' c h e f d v =
    let done : ViewChangeState = record s' { completed = true } in
    let counted : suc (new_view_events c.published) ≡ completed_objects (set_at i done c.heap) =
      grind (arith, completed_objects-set_at i s done c.heap e, f, h.counted) in
    let backed : All (Backed n) (set_at i done c.heap) =
      All-set_at (Backed n) i done c.heap (d, λ q. v) h.backed in
    call_back-Sound n k view _ (
      if_elim (Sound n) c.event_bus _ _
        (λ q. record {
          replicas = h.replicas;
          has_bus = h.has_bus;
          backed = backed;
          counted =
              grind
                (arith, counted, new_view_events-append c.published (new_view_event k view ∷ []));
        })
        (λ q. ground (arith, q, h.has_bus)))

settle-Sound :
    (n i : ℕ) (k : Text) (view : ℤ) (s : ViewChangeState) (node : Option Text) (c : ViewChanger)
    → Sound n c
    → get_elem? c.heap i ≡ some s
    → Sound n (settle i k view (with_vote node s) c)
unfolding settle
settle-Sound n i k view s node c h e =
    let voted : Backed n (with_vote node s) =
      with_vote-Backed n node s (All-get_elem? (Backed n) i s c.heap h.backed e) in
    if_elim (Sound n) (is_final c.total_replicas (with_vote node s)) _ _
      (λ f.
        let parts =
          is_final_parts n (with_vote node s)
            (ap (λ m. is_final m (with_vote node s)) (sym h.replicas) ∙ f) in
        complete-Sound n i k view s (with_vote node s) c h e
          (sym (with_vote-completed node s) ∙ parts.1) voted.0 parts.0)
      (λ f. record {
        replicas = h.replicas;
        has_bus = h.has_bus;
        backed = All-set_at (Backed n) i (with_vote node s) c.heap voted h.backed;
        counted = grind (
          arith,
          h.counted,
          completed_objects-set_at i s (with_vote node s) c.heap e,
          with_vote-completed node s,
        );
      })

file_vote-Sound :
    (n i : ℕ) (k : Text) (node : Option Text) (view : ℤ) (c : ViewChanger)
    → Sound n c
    → Sound n (file_vote i k node view c)
unfolding file_vote
file_vote-Sound n i k node view c h = elim (Option-cases (get_elem? c.heap i)) [
  | inl e ↦ rw (file_vote, e) h
  | inr (s, e) ↦ rw (file_vote, e) (settle-Sound n i k view s node c h e)
]

ensure-Sound :
    (n now : ℕ) (k : Text) (view : ℤ) (c : ViewChanger) → Sound n c → Sound n (ensure now k view c)
ensure-Sound n now k view c h =
    if_elim (Sound n) (contains k c.view_changes) _ _ (λ e. h) (λ e. begin-Sound n now k _ view c h)

receive-Sound :
    (n now : ℕ) (k : Text) (node : Option Text) (view : ℤ) (c : ViewChanger)
    → Sound n c
    → Sound n (receive now k node view c)
unfolding receive
receive-Sound n now k node view c h =
    let h' : Sound n (ensure now k view c) = ensure-Sound n now k view c h in
    elim (Option-cases (lookup k (ensure now k view c).view_changes)) [
      | inl e ↦ rw (receive, e) h'
      | inr (i, e) ↦ rw (receive, e) (file_vote-Sound n i k node view (ensure now k view c) h')
    ]

handle_view_change_msg-Sound :
    (n now : ℕ) (d : ViewChangeData) (c : ViewChanger)
    → Sound n c
    → Sound n (handle_view_change_msg now d c)
unfolding handle_view_change_msg
handle_view_change_msg-Sound n now d c h = elim (Option-cases d.round_id) [
  | inl e ↦ rw (handle_view_change_msg, e) h
  | inr (k, e) ↦ elim (Option-cases d.new_view) [
    | inl f ↦ rw (handle_view_change_msg, e, f) h
    | inr (view, f) ↦ rw (handle_view_change_msg, e, f) (receive-Sound n now k d.node_id view c h)
  ]
]

initiate_view_change-Sound :
    (n now : ℕ) (bus : Bool) (k : Text) (old : ℤ) (c : ViewChanger)
    → Sound n c
    → Sound n (initiate_view_change now bus k old c).1
unfolding initiate_view_change
initiate_view_change-Sound n now bus k old c h =
    if_elim (λ (r : Option ℕ × ViewChanger). Sound n r.1) (contains k c.view_changes) _ _ (λ e. h)
      (λ e.
        let h' = begin-Sound n now k old (old +ℤ pos 1) c h in
        if_elim (Sound n) (if bus then true else c.event_bus) _ _
          (λ f. record {
            replicas = h.replicas;
            has_bus = h.has_bus;
            backed = h'.backed;
            counted = grind (arith, h'.counted, new_view_events-append c.published);
          })
          (λ f. h'))

clear_view_change-Sound :
    (n : ℕ) (k : Text) (c : ViewChanger) → Sound n c → Sound n (clear_view_change k c)
unfolding clear_view_change
clear_view_change-Sound n k c h =
    if_elim (Sound n) (contains k c.view_changes) _ _
      (λ e. record {
        replicas = h.replicas;
        has_bus = h.has_bus;
        backed = h.backed;
        counted = h.counted;
      })
      (λ e. h)

set_view_changed_callback-Sound :
    (n : ℕ) (c : ViewChanger) → Sound n c → Sound n (set_view_changed_callback c)
unfolding set_view_changed_callback
set_view_changed_callback-Sound n c h = record {
  replicas = h.replicas;
  has_bus = h.has_bus;
  backed = h.backed;
  counted = h.counted;
}

-- A call of a method, in the order in which the event loop makes them; waits change nothing.
pub data Call : Type 0 where
  initiates : ℕ → Bool → Text → ℤ → Call
  hears : ℕ → ViewChangeData → Call
  clears : Text → Call
  sets_callback : Call

unfoldable pub step : ViewChanger → Call → ViewChanger
step c (initiates now bus k old) = (initiate_view_change now bus k old c).1
step c (hears now d) = handle_view_change_msg now d c
step c (clears k) = clear_view_change k c
step c sets_callback = set_view_changed_callback c

unfoldable pub run : ViewChanger → List Call → ViewChanger
unfolding step
run c [] = c
run c (call ∷ calls) = run (step c call) calls

step-Sound : (n : ℕ) (c : ViewChanger) (call : Call) → Sound n c → Sound n (step c call)
unfolding step
step-Sound n c (initiates now bus k old) h = initiate_view_change-Sound n now bus k old c h
step-Sound n c (hears now d) h = handle_view_change_msg-Sound n now d c h
step-Sound n c (clears k) h = clear_view_change-Sound n k c h
step-Sound n c sets_callback h = set_view_changed_callback-Sound n c h

run_from-Sound : (n : ℕ) (c : ViewChanger) (calls : List Call) → Sound n c → Sound n (run c calls)
unfolding run
run_from-Sound n c [] h = h
run_from-Sound n c (call ∷ calls) h = run_from-Sound n (step c call) calls (step-Sound n c call h)

-- After any calls of the methods of a new changer with an event bus, there have been exactly as many
-- NEW_VIEW events as view changes are completed, cleared ones included, and every completed one has
-- the votes of at least 2f + 1 different nodes.
pub run-Sound :
    (node : Text) (n : ℕ) (calls : List Call)
    → (new_view_events (run (new_changer node n true) calls).published
        ≡ completed_objects (run (new_changer node n true) calls).heap)
      × All (Backed n) (run (new_changer node n true) calls).heap
run-Sound node n calls =
    let h =
      run_from-Sound n (new_changer node n true) calls
        (record { replicas = refl; has_bus = refl; backed = tt; counted = refl }) in
    (h.counted, h.backed)
