-- ===== src/Qoi/Pos/Votes.antt =====
-- Votes and quorums of core/qoi/pos_consensus.py, over any sequence of calls.
use ai_inference_chain.Prelude.{
  ℕ, ◌+◌, ◌*◌, ◌≤◌, ◌≡◌, ◌≢◌, refl, true, Option, none, some, inl, inr, List, [], ◌∷◌, leb→le,
  length, arith, Bool-cases, Option-cases,
}
use ai_inference_chain.Prelude.Dict.{
  Dict, lookup, insert, values, keys, IsDistinct, insert-IsDistinct, length-values,
  length-insert_new, lookup-insert,
}
use ai_inference_chain.Blockchain.Constants.{Text}
use ai_inference_chain.Blockchain.Block.{Block, Hashes, block_hash}
use ai_inference_chain.Qoi.Pos.{
  VoteMsg, PosMachine, PosOutcome, PosPhase, has_quorum, new_machine, finalise, propose_block,
  handle_proposed_block, handle_vote, check_timeout, own_vote, validate_proposed_block,
}

-- The calls that a node makes to its machine; the numbers are clock readings.
pub data Call : Type 0 where
  proposes receives : ℕ → Block → Call
  hears : VoteMsg → Call
  ticks : ℕ → Call

unfoldable pub step : Hashes → PosMachine → Call → PosMachine
step h m (proposes now b) = (propose_block h now b m).1
step h m (receives now b) = (handle_proposed_block h now b m).1
step h m (hears v) = (handle_vote h v m).1
step h m (ticks now) = (check_timeout now m).1

unfoldable pub run : Hashes → PosMachine → List Call → PosMachine
run h m [] = m
run h m (c ∷ cs) = run h (step h m c) cs

-- Each vote is filed under its own voter.
abbrev pub Filed : Dict VoteMsg → Type 0
Filed [] = Unit {0}
Filed ((k, v) ∷ d) = (v.node_id ≡ k) × Filed d

abbrev pub voters : List VoteMsg → List Text
voters [] = []
voters (v ∷ vs) = v.node_id ∷ voters vs

-- A committed block rests on the votes of 2f+1 different nodes.
abbrev pub IsQuorum : ℕ → PosOutcome → Type 0
IsQuorum f o = (2 * f + 1 ≤ length o.votes) × IsDistinct (voters o.votes)

abbrev pub Certified : ℕ → Option PosOutcome → Type 0
Certified f none = Unit {0}
Certified f (some o) = IsQuorum f o

pub record Inv (f : ℕ) (m : PosMachine) : Type 0 where
  pub same_f : m.f ≡ f
  pub distinct : IsDistinct (keys m.votes)
  pub filed : Filed m.votes
  pub certified : Certified f m.outcome

Filed-insert :
    (k : Text) (v : VoteMsg) (d : Dict VoteMsg) → v.node_id ≡ k → Filed d → Filed (insert k v d)
Filed-insert k v [] e h = (e, tt)
Filed-insert k v ((i, w) ∷ d) e h = ground (arith, Filed-insert k v d e h.1)

voters-values : (d : Dict VoteMsg) → Filed d → voters (values d) ≡ keys d
voters-values [] h = refl
voters-values ((i, w) ∷ d) h = rw (h.0, voters-values d h.1)

finalise-Inv :
    (f : ℕ) (b : Block) (m : PosMachine) → Inv f m → has_quorum m ≡ true → Inv f (finalise b m)
unfolding finalise
finalise-Inv f b m i q = record {
  same_f = i.same_f;
  distinct = i.distinct;
  filed = i.filed;
  certified = (
    omega (arith, leb→le (2 * m.f + 1) (length m.votes) q, length-values {0} m.votes, i.same_f),
    rw (voters-values m.votes i.filed) i.distinct,
  );
}

propose_block-Inv :
    (h : Hashes) (f now : ℕ) (b : Block) (m : PosMachine)
    → Inv f m
    → Inv f (propose_block h now b m).1
unfolding propose_block
propose_block-Inv h f now b m i =
    let m' : PosMachine = record m {
      proposed_block = some b;
      phase = PosPhase.proposed;
      phase_start = now;
      votes = (m.node_id, own_vote h now b m) ∷ [];
    } in
    let i' : Inv f m' = record {
      same_f = i.same_f;
      distinct = (tt, tt);
      filed = (refl, tt);
      certified = i.certified;
    } in
    elim (Bool-cases (has_quorum m')) [ inl q ↦ rw q (finalise-Inv f b m' i' q) | inr q ↦ rw q i' ]

handle_vote-Inv :
    (h : Hashes) (f : ℕ) (v : VoteMsg) (m : PosMachine) → Inv f m → Inv f (handle_vote h v m).1
unfolding handle_vote
handle_vote-Inv h f v m i =
    let m' : PosMachine = record m { votes = insert v.node_id v m.votes } in
    let i' : Inv f m' = record {
      same_f = i.same_f;
      distinct = insert-IsDistinct v.node_id v m.votes i.distinct;
      filed = Filed-insert v.node_id v m.votes refl i.filed;
      certified = i.certified;
    } in
    elim (Option-cases m.proposed_block) [
      | inl e ↦ ground (arith, e, i)
      | inr (b, e) ↦ ground (arith, e, i, i', finalise-Inv f b m')
    ]

-- Every call keeps the invariant.
step-Inv : (h : Hashes) (f : ℕ) (m : PosMachine) (c : Call) → Inv f m → Inv f (step h m c)
unfolding step handle_proposed_block check_timeout
step-Inv h f m (proposes now b) i = propose_block-Inv h f now b m i
step-Inv h f m (receives now b) i = ground (
  arith,
  insert-IsDistinct m.node_id (own_vote h now b m) m.votes i.distinct,
  Filed-insert m.node_id (own_vote h now b m) m.votes refl i.filed,
)
step-Inv h f m (hears v) i = handle_vote-Inv h f v m i
step-Inv h f m (ticks now) i = ground arith

run-Inv : (h : Hashes) (f : ℕ) (m : PosMachine) (cs : List Call) → Inv f m → Inv f (run h m cs)
unfolding run
run-Inv h f m [] i = i
run-Inv h f m (c ∷ cs) i = run-Inv h f (step h m c) cs (step-Inv h f m c i)

-- Whatever calls a new machine has received, a block that it has committed carries the votes of at
-- least 2f+1 different nodes.
pub run-Certified :
    (h : Hashes) (node proposer : Text) (f : ℕ) (cs : List Call)
    → Certified f (run h (new_machine node proposer f) cs).outcome
unfolding new_machine
run-Certified h node proposer f cs =
    (run-Inv h f (new_machine node proposer f) cs
      (record { same_f = refl; distinct = tt; filed = tt; certified = tt })).certified

-- A replica keeps the votes that it holds when another block is proposed to it, and counts them
-- for that block: with 2f-1 or more votes on file, none of its own, for whatever blocks, its own
-- vote and one more commit the block that it received last. Conditions: the block is valid, and the
-- one more vote is for it and from a node that is neither on file nor the replica.
pub stale_votes-commit :
    (h : Hashes) (now : ℕ) (b : Block) (v : VoteMsg) (m : PosMachine)
    → validate_proposed_block h b ≡ true
    → lookup m.node_id m.votes ≡ none
    → lookup v.node_id m.votes ≡ none
    → v.node_id ≢ m.node_id
    → v.block_hash ≡ block_hash h b
    → 2 * m.f ≤ length m.votes + 1
    → let (done, m') = handle_vote h v (handle_proposed_block h now b m).1 in
      (done ≡ true)
      × (m'.outcome
          ≡ some (record {
            block = b;
            votes = values (insert v.node_id v (insert m.node_id (own_vote h now b m) m.votes));
            proposer_id = m.proposer_id;
          }))
unfolding handle_vote handle_proposed_block finalise
stale_votes-commit h now b v m valid own other ne hash enough =
    let d : Dict VoteMsg = insert m.node_id (own_vote h now b m) m.votes in
    let free : lookup v.node_id d ≡ none =
      ground (arith, lookup-insert v.node_id m.node_id (own_vote h now b m) m.votes) in
    let one = length-insert_new m.node_id (own_vote h now b m) m.votes own in
    let two = length-insert_new v.node_id v d free in (ground arith, ground arith)
