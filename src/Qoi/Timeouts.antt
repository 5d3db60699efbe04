-- ===== src/Qoi/Timeouts.antt =====
-- core/qoi/timeout_manager.py. Times are whole milliseconds. The callback is an argument: what it
-- does to the rounds of the manager, whether or not it raises, since an exception of it is caught.
pub mod Expired
mod Tests
use ai_inference_chain.Prelude.{
  ℕ, ◌+◌, Bool, true, false, Option, none, some, List, [], ◌∷◌, leb, if◌then◌else◌,
}
use ai_inference_chain.Prelude.Dict.{Dict, lookup, insert, erase, contains}
use ai_inference_chain.Blockchain.Constants.{Text}

pub record ActiveRound : Type 0 where
  pub round_id : Text
  pub view : ℕ
  pub started_at : ℕ
  pub timeout : ℕ

-- `timeout_at`, and `is_timed_out` at a time
abbrev pub timeout_at : ActiveRound → ℕ
timeout_at r = r.started_at + r.timeout

abbrev pub is_timed_out : ℕ → ActiveRound → Bool
is_timed_out now r = leb (timeout_at r) now

-- `_active_rounds`
abbrev pub Rounds : Type 0
Rounds = Dict ActiveRound

-- `start_round` of a manager with the timeout
unfoldable pub start_round : ℕ → ℕ → Text → ℕ → Rounds → Rounds
start_round timeout now k view rounds =
    if contains k rounds
    then rounds
    else insert k (record { round_id = k; view = view; started_at = now; timeout = timeout }) rounds

unfoldable pub end_round : Text → Rounds → Rounds
end_round k rounds = if contains k rounds then erase k rounds else rounds

unfoldable pub update_view : Text → ℕ → Rounds → Rounds
update_view k view rounds = elim (lookup k rounds) [
  | none ↦ rounds
  | some r ↦ insert k (record r { view = view }) rounds
]

-- `on_timeout(round_id, view)`
abbrev pub Callback : Type 0
Callback = Text → ℕ → Rounds → Rounds

-- What `check_timeouts` returns, or that its `del` raised.
pub data Checked : Type 0 where
  timed_out : List (Text × ℕ) → Checked
  key_error : Checked

abbrev pub prepend : Text × ℕ → Checked → Checked
prepend r (timed_out rs) = timed_out (r ∷ rs)
prepend r key_error = key_error

-- The loop over a copy of the rounds; `now k` is the time at which the round k is looked at. The copy
-- keeps the views that the rounds had when the check began. Python's list shares its objects with
-- the dict, so the view of a later round that a callback updates is reported there as updated, and
-- here as it was; a callback that updates no views is modelled as it is.
unfoldable pub check_each : (Text → ℕ) → Callback → Rounds → Rounds → Checked × Rounds
check_each now on_timeout [] rounds = (timed_out [], rounds)
check_each now on_timeout ((k, r) ∷ todo) rounds =
    if is_timed_out (now k) r
    then (let rounds' : Rounds = on_timeout k r.view rounds in
        let (found, rest) = check_each now on_timeout todo (erase k rounds') in
        if contains k rounds' then (prepend (k, r.view) found, rest) else (key_error, rounds'))
    else check_each now on_timeout todo rounds

unfoldable pub check_timeouts : (Text → ℕ) → Callback → Rounds → Checked × Rounds
unfolding check_each
check_timeouts now on_timeout rounds = check_each now on_timeout rounds rounds

-- No callback.
abbrev pub no_callback : Callback
no_callback k view rounds = rounds

unfoldable pub get_round_info : Text → Rounds → Option ActiveRound
get_round_info k rounds = lookup k rounds
