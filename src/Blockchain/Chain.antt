-- ===== src/Blockchain/Chain.antt =====
-- core/blockchain/chain.py: the ledger. `State` has the dataclasses and their queries, `Apply` the
-- state transitions, `Validate` the checks; here is the class `Chain`.
pub mod State
pub mod Apply
pub mod Validate
pub mod Supply
pub mod Nonces
pub mod Replay
pub mod Links
pub mod Funds
use ai_inference_chain.Prelude.{
  ℕ, ◌-◌, ◌≡◌, Bool, true, false, Option, none, some, List, [], ◌∷◌, ◌++◌, Result, ok, err, ◌>>=◌,
  ◌>>◌, ◌==◌, if◌then◌else◌, length, last?, get_elem?,
}
use ai_inference_chain.Prelude.Int.{ℤ, pos, ◌+ℤ◌, max_ℤ}
use ai_inference_chain.Prelude.Dict.{Dict, lookup, insert}
use ai_inference_chain.Blockchain.Constants.{Text, Amount}
use ai_inference_chain.Blockchain.Transaction.{ConsensusResultPayload}
use ai_inference_chain.Blockchain.Block.{Block, Hashes, block_hash}
use State.{ChainState, empty_state, reputation_of}
use Apply.{apply_block}
use Validate.{ChainError, Signing, validate_block}

pub record Chain : Type 0 where
  pub f : ℕ
  pub blocks : List Block
  pub state : ChainState

-- `Chain(genesis, f)`: the genesis block is applied and never validated
unfoldable pub new_chain : Hashes → ℕ → Block → Chain
new_chain h f genesis = record {
  f = f;
  blocks = genesis ∷ [];
  state = apply_block h genesis empty_state;
}

pub height : Chain → ℕ
height c = length c.blocks - 1

pub tip : Chain → Option Block
tip c = last? c.blocks

unfoldable pub append : Hashes → Signing → Block → Chain → Result ChainError Chain
append h sg b c = do
  validate_block h sg c.f (last? c.blocks) b c.state
  ok (record c { blocks = c.blocks ++ b ∷ []; state = apply_block h b c.state })

unfoldable pub get_block : ℕ → Chain → Option Block
get_block i c = get_elem? c.blocks i

find_last : Hashes → Text → List Block → Option Block
find_last h k [] = none
find_last h k (b ∷ bs) = elim (find_last h k bs) [
  | some later ↦ some later
  | none ↦ if block_hash h b == k then some b else none
]

pub get_block_by_hash : Hashes → Text → Chain → Option Block
unfolding find_last
get_block_by_hash h k c = find_last h k c.blocks

pub get_inference_result : Text → Chain → Option ConsensusResultPayload
get_inference_result r c = lookup r c.state.inference_log

apply_deltas : List (Text × Amount) → ChainState → ChainState
apply_deltas [] s = s
apply_deltas ((n, delta) ∷ ds) s =
    apply_deltas ds (record s {
      reputations = insert n (max_ℤ (pos 0) (reputation_of s n +ℤ delta)) s.reputations;
    })

unfoldable pub apply_reputation_deltas : List (Text × Amount) → Chain → Chain
unfolding apply_deltas
apply_reputation_deltas ds c = record c { state = apply_deltas ds c.state }
