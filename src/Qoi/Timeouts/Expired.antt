-- ===== src/Qoi/Timeouts/Expired.antt =====
-- What `check_timeouts` of core/qoi/timeout_manager.py reports, and what it leaves.
use ai_inference_chain.Prelude.{
  ℕ, ◌+◌, ◌≡◌, refl, sym, subst, Bool, true, false, not, List, [], ◌∷◌, ◌++◌, keep, map, arith,
}
use ai_inference_chain.Prelude.Dict.{
  append-snoc, erase-middle, IsDistinct-middle, erase, erase-IsDistinct, contains, keys,
  lookup-erase_self, IsDistinct,
}
use ai_inference_chain.Blockchain.Constants.{Text}
use ai_inference_chain.Qoi.Timeouts.{
  ActiveRound, Rounds, Callback, timed_out, key_error, is_timed_out, check_each, check_timeouts,
  no_callback, start_round, end_round,
}

-- The entries that have timed out, and the others.
abbrev expired : (Text → ℕ) → Text × ActiveRound → Bool
expired now (k, r) = is_timed_out (now k) r

abbrev pub reported : (Text → ℕ) → Rounds → List (Text × ℕ)
reported now rounds = map (λ e. (e.0, e.1.view)) (keep (expired now) rounds)

abbrev pub remaining : (Text → ℕ) → Rounds → Rounds
remaining now rounds = keep (λ e. not (expired now e)) rounds

contains-append :
    (k : Text) (r : ActiveRound) (kept todo : Rounds) → contains k (kept ++ (k, r) ∷ todo) ≡ true
contains-append k r [] todo = ground arith
contains-append k r ((j, s) ∷ kept) todo = ground (arith, contains-append k r kept todo)

-- A callback that leaves the rounds as they are while the round is among them.
abbrev Idle : Callback → Type 0
Idle on_timeout =
    (k : Text) (view : ℕ) (rounds : Rounds)
    → contains k rounds ≡ true
    → on_timeout k view rounds ≡ rounds

-- The loop on what is left of the copy, the rounds that stay before it.
check_each-Idle :
    (now : Text → ℕ) (on_timeout : Callback)
    → Idle on_timeout
    → (kept todo : Rounds) → IsDistinct (keys (kept ++ todo))
    → check_each now on_timeout todo (kept ++ todo)
      ≡ (timed_out (reported now todo), kept ++ remaining now todo)
unfolding check_each
check_each-Idle now on_timeout idle kept [] d = refl
check_each-Idle now on_timeout idle kept ((k, r) ∷ todo) d =
    let gone : erase k (kept ++ (k, r) ∷ todo) ≡ kept ++ todo =
      erase-middle k r kept todo (IsDistinct-middle k r kept todo d) in
    let shifted : (kept ++ (k, r) ∷ []) ++ todo ≡ kept ++ (k, r) ∷ todo =
      append-snoc kept (k, r) todo in
    ground (
      arith,
      contains-append k r kept todo,
      idle k r.view _ (contains-append k r kept todo),
      gone,
      shifted,
      append-snoc kept (k, r) (remaining now todo),
      check_each-Idle now on_timeout idle kept todo
          (subst (λ es. IsDistinct (keys es)) gone (erase-IsDistinct k _ d)),
      check_each-Idle now on_timeout idle (kept ++ (k, r) ∷ []) todo
          (subst (λ es. IsDistinct (keys es)) (sym shifted) d),
    )

-- A callback that starts the round again with the next view.
abbrev pub restart : ℕ → ℕ → Callback
restart timeout clock k view rounds = start_round timeout clock k (view + 1) rounds

-- With no callback, a check returns exactly the rounds whose time is up, with their views and in
-- the order in which they were started, and it goes on tracking exactly the others, in that order.
-- A callback that starts the round again with the next view changes nothing of that: the round is
-- not tracked afterwards.
pub check_timeouts-expired :
    (now : Text → ℕ) (timeout clock : ℕ) (rounds : Rounds)
    → IsDistinct (keys rounds)
    → (check_timeouts now no_callback rounds
        ≡ (timed_out (reported now rounds), remaining now rounds))
      × (check_timeouts now (restart timeout clock) rounds
          ≡ (timed_out (reported now rounds), remaining now rounds))
unfolding check_timeouts start_round
check_timeouts-expired now timeout clock rounds d = (
  check_each-Idle now no_callback (λ k view rs h. refl) [] rounds d,
  check_each-Idle now (restart timeout clock) (λ k view rs h. rw h refl) [] rounds d,
)

-- A callback that ends the round.
abbrev pub ending : Callback
ending k view rounds = end_round k rounds

end_round-absent :
    (k : Text) (rounds : Rounds)
    → IsDistinct (keys rounds)
    → contains k (end_round k rounds) ≡ false
unfolding end_round
end_round-absent k rounds d = ground (arith, lookup-erase_self k rounds d)

check_each-ending :
    (now : Text → ℕ) (todo rounds : Rounds)
    → IsDistinct (keys rounds)
    → (k : Text) (r : ActiveRound) (later : Rounds) → keep (expired now) todo ≡ (k, r) ∷ later
    → check_each now ending todo rounds ≡ (key_error, end_round k rounds)
unfolding check_each
check_each-ending now [] rounds d k r later e = ground (arith, e)
check_each-ending now ((j, s) ∷ todo) rounds d k r later e =
    ground (arith, e, end_round-absent j rounds d, check_each-ending now todo rounds d k r later)

-- With a callback that ends the round it is told of, a check at which a round has timed out raises
-- a KeyError: what it has found is lost, and the first such round is the only one that is dropped.
pub check_timeouts-ending :
    (now : Text → ℕ) (rounds : Rounds)
    → IsDistinct (keys rounds)
    → (k : Text) (r : ActiveRound) (later : Rounds) → keep (expired now) rounds ≡ (k, r) ∷ later
    → check_timeouts now ending rounds ≡ (key_error, end_round k rounds)
unfolding check_timeouts
check_timeouts-ending now rounds d k r later e = check_each-ending now rounds rounds d k r later e
