-- ===== src/Qoi/Machine/Dispatch.antt =====
-- `handle_message` and `check_timeout` of core/qoi/state_machine.py.
use ai_inference_chain.Prelude.{ℕ, ◌+◌, not, ◌&&◌, ltb, if◌then◌else◌}
use ai_inference_chain.Blockchain.Constants.{view_change_timeout}
use ai_inference_chain.Qoi.Quality.{Floats}
use ai_inference_chain.Qoi.Messages.{
  Message, pre_prepare, prepare, commit, view_change, new_view, header_of,
}
use ai_inference_chain.Qoi.Machine.{is_resting, Machine, Reply, nothing}
use ai_inference_chain.Qoi.Machine.Rounds.{handle_pre_prepare, handle_prepare}
use ai_inference_chain.Qoi.Machine.Commits.{handle_commit}
use ai_inference_chain.Qoi.Machine.ViewChange.{
  handle_view_change, handle_new_view, trigger_view_change,
}

module _ (fl : Floats) where
  -- The `match` of `handle_message`.
  unfoldable dispatch : ℕ → Message fl → Machine fl → Reply fl × Machine fl
  dispatch now (pre_prepare msg) m = handle_pre_prepare fl now msg m
  dispatch now (prepare msg) m = handle_prepare fl now msg m
  dispatch now (commit msg) m = handle_commit fl msg m
  dispatch now (view_change msg) m = handle_view_change fl now msg m
  dispatch now (new_view msg) m = handle_new_view fl msg m

  unfoldable pub handle_message : ℕ → Message fl → Machine fl → Reply fl × Machine fl
  unfolding dispatch
  handle_message now msg m =
      if ltb (header_of msg).view m.view then (nothing, m) else dispatch now msg m

  unfoldable pub check_timeout : ℕ → Machine fl → Reply fl × Machine fl
  unfolding trigger_view_change
  check_timeout now m =
      if not (is_resting m.phase) && ltb (m.phase_start + view_change_timeout) now
      then trigger_view_change fl now m
      else (nothing, m)
