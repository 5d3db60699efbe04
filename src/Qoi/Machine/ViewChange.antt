-- ===== src/Qoi/Machine/ViewChange.antt =====
-- `_handle_view_change`, `_handle_new_view`, `_trigger_view_change` and `_elect_new_primary` of
-- core/qoi/state_machine.py.
use ai_inference_chain.Prelude.{
  ℕ, ◌+◌, ◌*◌, Bool, ◌&&◌, ◌||◌, List, [], ◌∷◌, ltb, leb, ◌==◌, if◌then◌else◌, length,
}
use ai_inference_chain.Prelude.Dict.{insert, values}
use ai_inference_chain.Blockchain.Constants.{Text}
use ai_inference_chain.Qoi.Quality.{Floats}
use ai_inference_chain.Qoi.Messages.{ViewChangeMsg, NewViewMsg, view_change, new_view}
use ai_inference_chain.Qoi.Machine.{
  pre_preparing, view_changing, Machine, Reply, nothing, sends, own_header,
}

-- `candidates[0]` of `sorted(…, key=lambda m: (-m.last_seq, m.sender_id))`: the first message with
-- the least key
abbrev pub before : ViewChangeMsg → ViewChangeMsg → Bool
before a b =
    ltb b.last_seq a.last_seq
    || ((a.last_seq == b.last_seq) && ltb a.header.sender_id b.header.sender_id)

unfoldable pub least : ViewChangeMsg → List ViewChangeMsg → ViewChangeMsg
least best [] = best
least best (m ∷ ms) = least (if before m best then m else best) ms

-- `max(m.new_view for m in …)`
unfoldable pub max_view : ℕ → List ViewChangeMsg → ℕ
max_view n [] = n
max_view n (m ∷ ms) = max_view (if ltb n m.new_view then m.new_view else n) ms

module _ (fl : Floats) where
  unfoldable pub elect_new_primary : Machine fl → Text
  elect_new_primary m = elim (values m.view_changes) [
    | [] ↦ m.node_id
    | v ∷ vs ↦ (least v vs).header.sender_id
  ]

  -- `_handle_view_change` with 2f+1 messages on file
  unfoldable install_view : ℕ → Machine fl → Reply fl × Machine fl
  install_view now m =
      let n : ℕ = max_view 0 (values m.view_changes) in
      let p : Text = elect_new_primary m in
      let m' : Machine fl = record m { view = n; primary_id = p; phase = pre_preparing } in
      if p == m.node_id
      then (
        sends (
            new_view (record {
              header = own_header fl now m';
              new_view = n;
              view_change_msgs = values m.view_changes;
            })),
        m',
      )
      else (nothing, m)

  unfoldable pub handle_view_change : ℕ → ViewChangeMsg → Machine fl → Reply fl × Machine fl
  unfolding install_view
  handle_view_change now msg m =
      if leb msg.new_view m.view
      then (nothing, m)
      else (let m' : Machine fl = record m {
        view_changes = insert msg.header.sender_id msg m.view_changes;
        phase = view_changing;
      } in
          if ltb (length m'.view_changes) (2 * m.f + 1) then (nothing, m') else install_view now m')

  unfoldable pub handle_new_view : NewViewMsg → Machine fl → Reply fl × Machine fl
  handle_new_view msg m = if leb msg.new_view m.view then (nothing, m) else (
    nothing,
    record m {
      view = msg.new_view;
      primary_id = msg.header.sender_id;
      phase = pre_preparing;
      view_changes = [];
    },
  )

  unfoldable pub trigger_view_change : ℕ → Machine fl → Reply fl × Machine fl
  trigger_view_change now m = (
    sends (
        view_change
          (record { header = own_header fl now m; new_view = m.view + 1; last_seq = m.seq })),
    record m { phase = view_changing },
  )
