-- ===== src/Qoi/ViewChanger/Votes.antt =====
-- Which votes make a ViewChanger of core/qoi/view_changer.py announce a view, and which view.
use ai_inference_chain.Prelude.{
  ℕ, suc, ◌+◌, ◌*◌, ◌/◌, ◌<◌, ◌≡◌, refl, sym, ap, ◌∙◌, Bool, true, false, some, [], ◌∷◌, ◌++◌,
  length, arith,
}
use ai_inference_chain.Prelude.Int.{ℤ, pos, ◌-ℤ◌}
use ai_inference_chain.Prelude.Dict.{
  Dict, keys, insert, IsDistinct, Fresh, Fresh-insert, lookup-Fresh, length-insert_new,
}
use ai_inference_chain.Blockchain.Constants.{Text}
use ai_inference_chain.Qoi.ViewChanger.{
  ViewChanger, ViewChangeState, ViewChangeData, new_view_event, new_changer, with_vote, complete,
  settle, file_vote, receive, handle_view_change_msg,
}

-- A vote of a node for a view of the round, and the votes of several.
abbrev pub vote_of : Text → Text → ℤ → ViewChangeData
vote_of k node view = record { round_id = some k; node_id = some node; new_view = some view }

abbrev pub hear : ℕ → Text → Dict ℤ → ViewChanger → ViewChanger
hear now k [] c = c
hear now k ((node, view) ∷ votes) c =
    hear now k votes (handle_view_change_msg now (vote_of k node view) c)

-- The changer of a node while the round is the only one with a view change.
abbrev holding : Text → ℕ → Text → ViewChangeState → ViewChanger
holding self n k s = record {
  node_id = self;
  total_replicas = n;
  event_bus = true;
  on_view_changed = false;
  view_changes = (k, 0) ∷ [];
  heap = s ∷ [];
  published = [];
  called = [];
}

-- The object that the first vote makes.
abbrev new_object : ℕ → Text → ℤ → ViewChangeState
new_object now k view = record {
  round_id = k;
  old_view = view -ℤ pos 1;
  new_view = view;
  started_at = now;
  view_change_votes = [];
  new_view_msgs = [];
  completed = false;
}

handle-first :
    (now : ℕ) (self : Text) (n : ℕ) (k node : Text) (view : ℤ)
    → handle_view_change_msg now (vote_of k node view) (new_changer self n true)
      ≡ handle_view_change_msg now (vote_of k node view) (holding self n k (new_object now k view))
unfolding handle_view_change_msg receive
handle-first now self n k node view = ground arith

handle-early :
    (now : ℕ) (self : Text) (m : ℕ) (k node : Text) (view : ℤ) (s : ViewChangeState)
    → s.completed ≡ false
    → length (insert node true s.view_change_votes) < 2 * (m / 3) + 1
    → handle_view_change_msg now (vote_of k node view) (holding self (suc m) k s)
      ≡ holding self (suc m) k (with_vote (some node) s)
unfolding handle_view_change_msg receive file_vote settle
handle-early now self m k node view s e l = ground (arith, e)

handle-last :
    (now : ℕ) (self : Text) (m : ℕ) (k node : Text) (view : ℤ) (s : ViewChangeState)
    → s.completed ≡ false
    → length (insert node true s.view_change_votes) ≡ 2 * (m / 3) + 1
    → (handle_view_change_msg now (vote_of k node view) (holding self (suc m) k s)).published
      ≡ new_view_event k view ∷ []
unfolding handle_view_change_msg receive file_vote settle complete
handle-last now self m k node view s e l = ground (arith, e)

-- The nodes of the votes have not voted before.
abbrev Apart : Dict ℤ → Dict Bool → Type 0
Apart [] d = Unit {0}
Apart ((node, view) ∷ votes) d = Fresh node (keys d) × Apart votes d

Apart-insert :
    (votes : Dict ℤ) (node : Text) (d : Dict Bool)
    → Fresh node (keys votes)
    → Apart votes d
    → Apart votes (insert node true d)
Apart-insert [] node d f a = tt
Apart-insert ((j, view) ∷ votes) node d f a =
    (Fresh-insert j node true d (λ e. f.0 (sym e)) a.0, Apart-insert votes node d f.1 a.1)

length-vote :
    (node : Text) (d : Dict Bool)
    → Fresh node (keys d)
    → length (insert node true d) ≡ suc (length d)
length-vote node d f = length-insert_new node true d (lookup-Fresh node d f)

Apart-empty : (votes : Dict ℤ) → Apart votes []
Apart-empty [] = tt
Apart-empty ((node, view) ∷ votes) = (tt, Apart-empty votes)

Fresh-init :
    (i : Text) (votes later : Dict ℤ) → Fresh i (keys (votes ++ later)) → Fresh i (keys votes)
Fresh-init i [] later f = tt
Fresh-init i (e ∷ votes) later f = (f.0, Fresh-init i votes later f.1)

IsDistinct-init :
    (votes later : Dict ℤ) → IsDistinct (keys (votes ++ later)) → IsDistinct (keys votes)
IsDistinct-init [] later d = tt
IsDistinct-init ((node, view) ∷ votes) later d =
    (Fresh-init node votes later d.0, IsDistinct-init votes later d.1)

module _ (now : ℕ) (self : Text) (m : ℕ) (k : Text) where
  hear-early :
      (votes : Dict ℤ) (s : ViewChangeState)
      → s.completed ≡ false
      → IsDistinct (keys votes)
      → Apart votes s.view_change_votes
      → length s.view_change_votes + length votes < 2 * (m / 3) + 1
      → (hear now k votes (holding self (suc m) k s)).published ≡ []
  hear-early [] s e d a l = refl
  hear-early ((node, view) ∷ votes) s e d a l =
      let more : length (insert node true s.view_change_votes) ≡ suc (length s.view_change_votes) =
        length-vote node s.view_change_votes a.0 in
      ap (λ c. (hear now k votes c).published)
        (handle-early now self m k node view s e (omega (arith, more, l)))
      ∙ hear-early votes (with_vote (some node) s) e d.1
          (Apart-insert votes node s.view_change_votes d.0 a.1) (omega (arith, more, l))

  hear-last :
      (votes : Dict ℤ) (j : Text) (v : ℤ) (s : ViewChangeState)
      → s.completed ≡ false
      → IsDistinct (keys (votes ++ (j, v) ∷ []))
      → Apart (votes ++ (j, v) ∷ []) s.view_change_votes
      → length s.view_change_votes + length votes ≡ 2 * (m / 3)
      → (hear now k (votes ++ (j, v) ∷ []) (holding self (suc m) k s)).published
        ≡ new_view_event k v ∷ []
  hear-last [] j v s e d a l =
      handle-last now self m k j v s e (omega (arith, length-vote j s.view_change_votes a.0, l))
  hear-last ((node, view) ∷ votes) j v s e d a l =
      let more : length (insert node true s.view_change_votes) ≡ suc (length s.view_change_votes) =
        length-vote node s.view_change_votes a.0 in
      ap (λ c. (hear now k (votes ++ (j, v) ∷ []) c).published)
        (handle-early now self m k node view s e (omega (arith, more, l)))
      ∙ hear-last votes j v (with_vote (some node) s) e d.1
          (Apart-insert (votes ++ (j, v) ∷ []) node s.view_change_votes d.0 a.1)
          (omega (arith, more, l))

-- The votes of 2f different nodes for a round, for whatever views, announce nothing, and the vote of
-- one more node announces the view that this last vote names, whichever views the others were for.
pub hear-announces :
    (now : ℕ) (self : Text) (m : ℕ) (k : Text) (votes : Dict ℤ) (j : Text) (v : ℤ)
    → IsDistinct (keys (votes ++ (j, v) ∷ []))
    → length votes ≡ 2 * (m / 3)
    → ((hear now k votes (new_changer self (suc m) true)).published ≡ [])
      × ((hear now k (votes ++ (j, v) ∷ []) (new_changer self (suc m) true)).published
          ≡ new_view_event k v ∷ [])
hear-announces now self m k [] j v d l = (
  refl,
  ap (λ c. c.published) (handle-first now self (suc m) k j v)
      ∙ hear-last now self m k [] j v (new_object now k v) refl d (tt, tt) l,
)
hear-announces now self m k ((node, view) ∷ votes) j v d l =
    let c0 = handle-first now self (suc m) k node view in
    (
      ap (λ c. (hear now k votes c).published) c0
          ∙ hear-early now self m k ((node, view) ∷ votes) (new_object now k view) refl
              (IsDistinct-init ((node, view) ∷ votes) ((j, v) ∷ []) d)
              (Apart-empty ((node, view) ∷ votes)) (omega (arith, l)),
      ap (λ c. (hear now k (votes ++ (j, v) ∷ []) c).published) c0
          ∙ hear-last now self m k ((node, view) ∷ votes) j v (new_object now k view) refl d
              (Apart-empty ((node, view) ∷ votes ++ (j, v) ∷ [])) (omega (arith, l)),
    )
