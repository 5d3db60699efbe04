-- ===== src/Qoi/Tests.antt =====
-- The consensus theorems at concrete inputs.
use ai_inference_chain.Prelude.{ℕ, ◌≤◌, ◌<◌, ◌≡◌, ◌⊎◌, refl, none, some, [], ◌∷◌, All, map, arith}
use ai_inference_chain.Prelude.Dict.{Dict, IsDistinct, keys, values}
use ai_inference_chain.Blockchain.Constants.{Text}
use ai_inference_chain.Qoi.Quality.{Response, RoundResult, compute_round_rewards}
use ai_inference_chain.Qoi.Quality.Rewards.{IsJudged, compute_round_rewards-IsJudged}
use ai_inference_chain.Qoi.Quality.Lengths.{compute_round_rewards-total}
use ai_inference_chain.Qoi.Messages.{PrepareMsg, ViewChangeMsg, NewViewMsg}
use ai_inference_chain.Qoi.Machine.{Machine, preparing, committing, new_machine}
use ai_inference_chain.Qoi.Machine.Voting.{compute_consensus_class, tally, first_above}
use ai_inference_chain.Qoi.Machine.ViewChange.{elect_new_primary}
use ai_inference_chain.Qoi.Machine.Tally.{votes_for, compute_consensus_class_lem}
use ai_inference_chain.Qoi.Machine.Calls.{run}
use ai_inference_chain.Qoi.Machine.Invariant.{Certified, Decided, run-Decided}
use ai_inference_chain.Qoi.Machine.Agreement.{compute_consensus_class-agree}
use ai_inference_chain.Qoi.Machine.Views.{run-view_le}
use ai_inference_chain.Qoi.Machine.Election.{elect_new_primary-lem, IsAmong, LeadsOver}
use ai_inference_chain.Qoi.Machine.Sample.{
  header_from, vote_of, commit_of, round_calls, round_calls-HasArgmax,
}
use ai_inference_chain.Qoi.Quality.Fixed.{fixed}

-- A new machine of a network with f = 1, with PREPAREs on file.
abbrev fresh : Machine fixed
fresh = new_machine fixed 11 12 1

abbrev with_prepares : Dict (PrepareMsg fixed) → Machine fixed
with_prepares d = record {
  node_id = 11;
  primary_id = 12;
  f = 1;
  phase = preparing;
  view = 0;
  seq = 1;
  outcome = none;
  request_id = 5;
  image_hash = 6;
  phase_start = 0;
  pre_prepare_msg = none;
  prepares = d;
  commits = [];
  view_changes = [];
  consensus_class = none;
  node_responses = [];
  elected_quorum = [];
}

-- Nodes 11 to 14; 14 lies, and tells each of two machines another class.
abbrev seen_by_first : Dict (PrepareMsg fixed)
seen_by_first = (11, vote_of 11 3) ∷ (12, vote_of 12 3) ∷ (14, vote_of 14 3) ∷ []

abbrev seen_by_second : Dict (PrepareMsg fixed)
seen_by_second =
    (14, vote_of 14 7) ∷ (13, vote_of 13 3) ∷ (12, vote_of 12 3) ∷ (11, vote_of 11 3) ∷ []

first_class : compute_consensus_class fixed (with_prepares seen_by_first) ≡ some 3
unfolding compute_consensus_class tally first_above
first_class = refl

second_class : compute_consensus_class fixed (with_prepares seen_by_second) ≡ some 3
unfolding compute_consensus_class tally first_above
second_class = refl

compute_consensus_class-agree_example : Path ℕ 3 3
compute_consensus_class-agree_example =
    compute_consensus_class-agree fixed 1 (11 ∷ 12 ∷ 13 ∷ 14 ∷ []) (14 ∷ []) (λ n. 3)
      (with_prepares seen_by_first) (with_prepares seen_by_second) 3 3 (ground arith) (omega arith)
      (omega arith)
      (record { same_f = refl; distinct = ground arith; known = (refl, (refl, (refl, tt))) })
      (record {
        same_f = refl;
        distinct = ground arith;
        known = (refl, (refl, (refl, (refl, tt))));
      })
      (ground arith) (ground arith) first_class second_class

compute_consensus_class_lem_example :
    let m : Machine fixed = with_prepares ((11, vote_of 11 3) ∷ (12, vote_of 12 4) ∷ []) in
    (compute_consensus_class fixed m ≡ some 4 → 3 ≤ votes_for fixed 4 (values m.prepares))
    × (compute_consensus_class fixed m ≡ none → votes_for fixed 4 (values m.prepares) < 3)
compute_consensus_class_lem_example =
    compute_consensus_class_lem fixed (with_prepares ((11, vote_of 11 3) ∷ (12, vote_of 12 4) ∷ []))
      4

split_vote :
    compute_consensus_class fixed (with_prepares ((11, vote_of 11 3) ∷ (12, vote_of 12 4) ∷ []))
    ≡ none
unfolding compute_consensus_class tally first_above
split_vote = refl

run-Decided_example :
    let m = run fixed (new_machine fixed 11 11 1) round_calls in
    Certified fixed 1 m.outcome
    × Decided fixed 1 m.phase m.consensus_class m.prepares
    × IsDistinct (keys m.prepares)
run-Decided_example = run-Decided fixed 11 11 1 round_calls round_calls-HasArgmax

run-view_le_example : fresh.view ≤ (run fixed fresh round_calls).view
run-view_le_example = run-view_le fixed fresh round_calls

abbrev view_change_from : Text → ViewChangeMsg
view_change_from n = record { header = header_from n; new_view = 1; last_seq = 1 }

elect_new_primary-lem_example :
    let m : Machine fixed = record (with_prepares []) {
      view_changes =
          (13, record (view_change_from 13) { last_seq = 4 }) ∷ (12, view_change_from 12) ∷ [];
    } in
    ((v : ViewChangeMsg) × (v.header.sender_id ≡ elect_new_primary fixed m)
      × IsAmong v (values m.view_changes)
      × All (LeadsOver v) (values m.view_changes))
    ⊎ ((values m.view_changes ≡ []) × (elect_new_primary fixed m ≡ m.node_id))
elect_new_primary-lem_example = elect_new_primary-lem fixed (record (with_prepares []) {
  view_changes =
      (13, record (view_change_from 13) { last_seq = 4 }) ∷ (12, view_change_from 12) ∷ [];
})

abbrev new_view_one : NewViewMsg
new_view_one = record { header = header_from 13; new_view = 1; view_change_msgs = [] }

-- Responses of one class with vectors of two lengths, and of one length.
abbrev uneven : Dict (Response fixed)
uneven = (11, (3, 900 ∷ 100 ∷ [])) ∷ (14, (3, 1000 ∷ [])) ∷ []

abbrev even : Dict (Response fixed)
even = (11, (3, 900 ∷ 100 ∷ [])) ∷ (14, (7, 1000 ∷ [])) ∷ (12, (3, 800 ∷ 200 ∷ [])) ∷ []

compute_round_rewards-total_example :
    (r : RoundResult fixed) × (compute_round_rewards fixed 5 12 3 even 0 ≡ some r)
compute_round_rewards-total_example =
    compute_round_rewards-total fixed 5 12 3 2 even 0 (11, (3, 900 ∷ 100 ∷ []))
      ((12, (3, 800 ∷ 200 ∷ [])) ∷ []) refl (refl, (refl, tt))

-- The result of that round, by its totality.
abbrev even_result : (r : RoundResult fixed) × (compute_round_rewards fixed 5 12 3 even 0 ≡ some r)
even_result =
    compute_round_rewards-total fixed 5 12 3 2 even 0 (11, (3, 900 ∷ 100 ∷ []))
      ((12, (3, 800 ∷ 200 ∷ [])) ∷ []) refl (refl, (refl, tt))

compute_round_rewards-IsJudged_example :
    (map (λ x. x.node_id) even_result.0.node_results ≡ 11 ∷ 14 ∷ 12 ∷ [])
    × All (IsJudged fixed 3) even_result.0.node_results
compute_round_rewards-IsJudged_example =
    compute_round_rewards-IsJudged fixed 5 12 3 even 0 even_result.0 (ground arith) even_result.1

-- A machine that commits to class 3 with those uneven responses.
abbrev stuck : Machine fixed
stuck = record (with_prepares seen_by_first) {
  phase = committing;
  consensus_class = some 3;
  node_responses = uneven;
  commits = (11, commit_of 11 3) ∷ [];
}
