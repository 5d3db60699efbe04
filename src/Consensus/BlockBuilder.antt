-- ===== src/Consensus/BlockBuilder.antt =====
-- core/consensus/block_builder.py. `none` stands for a raised exception: scores that cannot be
-- computed, or the ValueError of a block whose structure is not valid.
pub mod Rescored
pub mod Accepted
mod Tests
use ai_inference_chain.Prelude.{ℕ, Option, none, some, List, [], ◌∷◌, ◌++◌, map, Result, ok, err}
use ai_inference_chain.Prelude.Dict.{Dict, insert}
use ai_inference_chain.Blockchain.Constants.{Text, Amount}
use ai_inference_chain.Blockchain.Transaction.{Transaction}
use ai_inference_chain.Blockchain.Block.{
  Block, BlockHeader, BlockType, ConsensusProof, Hashes, compute_merkle_root, validate_structure,
}
use ai_inference_chain.Blockchain.Block.Proofs.{collect}
use ai_inference_chain.Qoi.Quality.{Floats, Response, NodeQoiResult, compute_round_rewards}
use ai_inference_chain.Qoi.Machine.{ConsensusOutcome}
use ai_inference_chain.Qoi.SystemTxs.{Ids, build_system_txs}
use ai_inference_chain.Qoi.Pos.{PosOutcome, consensus_proof}

infixl 5 ◌>>=◌
abbrev ◌>>=◌ {ℓ κ} : {A : Type ℓ} {B : Type κ} → Option A → (A → Option B) → Option B
none >>= f = none
some a >>= f = f a

-- `Block(…)`, whose `__post_init__` checks the structure
abbrev pub new_block : Block → Option Block
new_block b = elim (validate_structure b) [ ok u ↦ some b | err e ↦ none ]

abbrev pub pos_block : ℕ → Text → ℕ → List Transaction → PosOutcome → Text → Block
pos_block now prev_hash height simple_txs o root = record {
  header = record {
    prev_hash = prev_hash;
    height = height;
    timestamp = now;
    proposer_id = o.proposer_id;
    merkle_root = root;
    block_type = BlockType.pos;
    view = o.block.header.view;
  };
  simple_txs = simple_txs;
  consensus_proof = consensus_proof o;
  inference_tx = none;
  system_txs = [];
}

unfoldable pub build_pos_block :
    Hashes → ℕ → Text → ℕ → List Transaction → PosOutcome → Option Block
build_pos_block h now prev_hash height simple_txs o = do
  root ← compute_merkle_root h simple_txs
  new_block (pos_block now prev_hash height simple_txs o root)

module _ (fl : Floats) where
  -- `{nr.node_id: (nr.predicted_class, nr.probabilities) for nr in …}`
  abbrev pub responses_from : List (NodeQoiResult fl) → Dict (Response fl) → Dict (Response fl)
  responses_from [] d = d
  responses_from (r ∷ rs) d =
      responses_from rs (insert r.node_id (r.predicted_class, r.probabilities) d)

  -- The outcome, scored again with the block's fees; its quorum is left at the default.
  unfoldable pub rescore : fl.Float → ConsensusOutcome fl → Option (ConsensusOutcome fl)
  rescore block_fees o = do
    r ←
        compute_round_rewards fl o.request_id o.primary_id o.consensus_class
          (responses_from o.round_result.node_results []) block_fees
    some (record o { round_result = r; elected_quorum = [] })

module _ (fl : Floats) (amount_of : fl.Float → Amount) where
  -- The block with its system transactions and its root.
  abbrev pub qoi_block :
      ℕ
      → Text
      → ℕ
      → Text
      → Transaction
      → List Transaction
      → ConsensusOutcome fl
      → List Transaction
      → Text
      → Block
  qoi_block now prev_hash height proposer inference_tx simple_txs o system_txs root = record {
    header = record {
      prev_hash = prev_hash;
      height = height;
      timestamp = now;
      proposer_id = proposer;
      merkle_root = root;
      block_type = BlockType.qoi;
      view = o.view;
    };
    simple_txs = simple_txs;
    consensus_proof =
        collect o.commit_signatures
          (record { consensus_type = BlockType.qoi; view = o.view; signatures = [] });
    inference_tx = some inference_tx;
    system_txs = system_txs;
  }

  unfoldable pub build_qoi_block :
      Hashes
      → Ids
      → (ℕ → ℕ)
      → ℕ
      → Text
      → ℕ
      → Text
      → Transaction
      → List Transaction
      → ConsensusOutcome fl
      → fl.Float
      → Option Block
  build_qoi_block h id_of clock now prev_hash height proposer inference_tx simple_txs o fees = do
    final ← rescore fl fees o
    let system_txs = build_system_txs fl amount_of id_of clock final
    root ← compute_merkle_root h (inference_tx ∷ simple_txs ++ system_txs)
    new_block (qoi_block now prev_hash height proposer inference_tx simple_txs o system_txs root)
