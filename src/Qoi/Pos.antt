-- ===== src/Qoi/Pos.antt =====
-- core/qoi/pos_consensus.py: voting on blocks without an inference request. The clock is an
-- argument, in seconds.
pub mod Votes
mod Tests
use ai_inference_chain.Prelude.{
  ℕ, suc, ◌+◌, ◌*◌, Bool, true, false, not, ◌&&◌, Option, none, some, List, [], ◌∷◌, ltb, leb, ◌==◌,
  if◌then◌else◌, is_some, length,
}
use ai_inference_chain.Prelude.Dict.{Dict, lookup, insert, contains, values}
use ai_inference_chain.Blockchain.Constants.{
  Text, no_text, empty_text, is_truthy, view_change_timeout,
}
use ai_inference_chain.Blockchain.Block.{
  Block, BlockType, ConsensusProof, Hashes, block_hash, verify_merkle_root, add_signature,
}

pub record VoteMsg : Type 0 where
  pub node_id : Text
  pub block_hash : Text
  pub view : ℕ
  pub signature : Text
  pub timestamp : ℕ

pub data PosPhase : Type 0 where
  idle proposed committed view_change : PosPhase

pub record PosOutcome : Type 0 where
  pub block : Block
  pub votes : List VoteMsg
  pub proposer_id : Text

-- The text "vote", which stands in for an empty signature.
abbrev pub vote_text : Text
vote_text = 2

abbrev pub add_votes : List VoteMsg → ConsensusProof → ConsensusProof
add_votes [] p = p
add_votes (v ∷ vs) p =
    add_votes vs
      (add_signature p v.node_id (if is_truthy v.signature then v.signature else vote_text))

unfoldable pub consensus_proof : PosOutcome → ConsensusProof
consensus_proof o =
    add_votes o.votes
      (record { consensus_type = BlockType.pos; view = o.block.header.view; signatures = [] })

pub record PosMachine : Type 0 where
  pub node_id : Text
  pub proposer_id : Text
  pub f : ℕ
  pub phase : PosPhase
  pub view : ℕ
  pub outcome : Option PosOutcome
  pub proposed_block : Option Block
  pub votes : Dict VoteMsg
  pub phase_start : ℕ

-- `PoSConsensusMachine(node_id, proposer_id, f)`
unfoldable pub new_machine : Text → Text → ℕ → PosMachine
new_machine node proposer f = record {
  node_id = node;
  proposer_id = proposer;
  f = f;
  phase = idle;
  view = 0;
  outcome = none;
  proposed_block = none;
  votes = [];
  phase_start = 0;
}

pub is_proposer : PosMachine → Bool
is_proposer m = m.node_id == m.proposer_id

-- `_finalise`, for the proposed block
unfoldable pub finalise : Block → PosMachine → PosMachine
finalise b m = record m {
  outcome = some (record { block = b; votes = values m.votes; proposer_id = m.proposer_id });
  phase = committed;
}

abbrev pub has_quorum : PosMachine → Bool
has_quorum m = leb (2 * m.f + 1) (length m.votes)

abbrev pub own_vote : Hashes → ℕ → Block → PosMachine → VoteMsg
own_vote h now b m = record {
  node_id = m.node_id;
  block_hash = block_hash h b;
  view = m.view;
  signature = empty_text;
  timestamp = now;
}

-- The proposer's own vote, and the machine after it.
unfoldable pub propose_block : Hashes → ℕ → Block → PosMachine → VoteMsg × PosMachine
propose_block h now b m =
    let v : VoteMsg = own_vote h now b m in
    let m' : PosMachine = record m {
      proposed_block = some b;
      phase = proposed;
      phase_start = now;
      votes = (m.node_id, v) ∷ [];
    } in
    (v, if has_quorum m' then finalise b m' else m')

is_pos : BlockType → Bool
is_pos BlockType.qoi = false
is_pos BlockType.pos = true

unfoldable pub validate_proposed_block : Hashes → Block → Bool
unfolding is_pos
validate_proposed_block h b =
    is_pos b.header.block_type && not (is_some b.inference_tx) && verify_merkle_root h b

unfoldable pub handle_proposed_block : Hashes → ℕ → Block → PosMachine → Option VoteMsg × PosMachine
handle_proposed_block h now b m =
    if validate_proposed_block h b
    then (
      some (own_vote h now b m),
      record m {
        proposed_block = some b;
        phase = proposed;
        phase_start = now;
        votes = insert m.node_id (own_vote h now b m) m.votes;
      },
    )
    else (none, m)

-- A vote for the proposed block `b`.
count_vote : Hashes → VoteMsg → Block → PosMachine → Bool × PosMachine
count_vote h v b m =
    if not (v.block_hash == block_hash h b)
    then (false, m)
    else (if contains v.node_id m.votes
        then (false, m)
        else (let m' : PosMachine = record m { votes = insert v.node_id v m.votes } in
            if has_quorum m' then (true, finalise b m') else (false, m')))

unfoldable pub handle_vote : Hashes → VoteMsg → PosMachine → Bool × PosMachine
unfolding count_vote
handle_vote h v m = elim m.proposed_block [ none ↦ (false, m) | some b ↦ count_vote h v b m ]

unfoldable pub check_timeout : ℕ → PosMachine → Bool × PosMachine
check_timeout now m = elim m.phase [
  | proposed ↦
      if ltb (m.phase_start + view_change_timeout) now
      then (true, record m { phase = view_change; view = m.view + 1 })
      else (false, m)
  | _ ↦ (false, m)
]
