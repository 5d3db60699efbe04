-- ===== src/Qoi/ViewChanger/Tests.antt =====
-- The theorems on core/qoi/view_changer.py at four replicas: three votes announce a view.
use ai_inference_chain.Prelude.{
  ℕ, ◌+◌, ◌*◌, ◌<◌, ◌≡◌, refl, Bool, true, false, some, List, [], ◌∷◌, All, leb, arith,
}
use ai_inference_chain.Prelude.Int.{pos}
use ai_inference_chain.Qoi.ViewChanger.{new_changer, new_view_event, Waited, wait_for_view_change}
use ai_inference_chain.Qoi.ViewChanger.Counts.{
  Call, initiates, hears, clears, sets_callback, run, run-Sound, Backed,
}
use ai_inference_chain.Qoi.ViewChanger.Objects.{new_view_events, completed_objects}
use ai_inference_chain.Qoi.ViewChanger.Votes.{vote_of, hear, hear-announces}
use ai_inference_chain.Qoi.ViewChanger.Wait.{wait_for_view_change-Ends, Ends, Open}

-- A view change that is announced, cleared, and asked for again by one vote.
abbrev calls : List Call
calls =
    sets_callback
    ∷ initiates 0 false 9 (pos 0)
    ∷ hears 1 (vote_of 9 11 (pos 1))
    ∷ hears 2 (vote_of 9 11 (pos 1))
    ∷ hears 3 (vote_of 9 12 (pos 1))
    ∷ hears 4 (vote_of 9 13 (pos 1))
    ∷ clears 9
    ∷ hears 5 (vote_of 9 14 (pos 1))
    ∷ []

run-Sound_example :
    (new_view_events (run (new_changer 10 4 true) calls).published
      ≡ completed_objects (run (new_changer 10 4 true) calls).heap)
    × All (Backed 4) (run (new_changer 10 4 true) calls).heap
run-Sound_example = run-Sound 10 4 calls

-- Two votes for view 1 and one for view 7.
hear-announces_example :
    ((hear 0 9 ((11, pos 1) ∷ (12, pos 1) ∷ []) (new_changer 10 4 true)).published ≡ [])
    × ((hear 0 9 ((11, pos 1) ∷ (12, pos 1) ∷ (13, pos 7) ∷ []) (new_changer 10 4 true)).published
        ≡ new_view_event 9 (pos 7) ∷ [])
hear-announces_example =
    hear-announces 0 10 3 9 ((11, pos 1) ∷ (12, pos 1) ∷ []) 13 (pos 7)
      (
        (λ e. ground (arith, e), (λ e. ground (arith, e), tt)),
        ((λ e. ground (arith, e), tt), (tt, tt)),
      )
      refl

-- Looks every 100 ms, with the object completed after half a second.
abbrev looks : ℕ → Bool × ℕ
looks i = (leb 5 i, 3000 + 100 * i)

wait_for_view_change-Ends_example :
    (j : ℕ) × (w : Waited) × (wait_for_view_change 102 10000 looks 3000 0 ≡ some w)
    × Ends 10000 looks 3000 j w
    × Open looks 0 j
    × (j < 102)
wait_for_view_change-Ends_example = wait_for_view_change-Ends 3000 looks (λ i. omega arith)
