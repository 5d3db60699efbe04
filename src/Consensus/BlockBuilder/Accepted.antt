-- ===== src/Consensus/BlockBuilder/Accepted.antt =====
-- The blocks of core/consensus/block_builder.py pass the checks of core/blockchain/chain.py.
use ai_inference_chain.Prelude.{
  ℕ, suc, ◌+◌, ◌≤◌, ◌≡◌, refl, sym, ap, subst, ◌∙◌, true, some, List, [], ◌∷◌, ◌++◌, ok, length,
  if◌then◌else◌, arith, All,
}
use ai_inference_chain.Prelude.Dict.{keys, IsDistinct}
use ai_inference_chain.Blockchain.Constants.{Text, Amount, is_truthy}
use ai_inference_chain.Blockchain.Transaction.{Transaction, is_inference}
use ai_inference_chain.Blockchain.Block.{
  Block, BlockType, ConsensusProof, Hashes, block_hash, is_valid, compute_merkle_root,
  verify_merkle_root, all_transactions, validate_structure,
}
use ai_inference_chain.Blockchain.Block.Merkle.{compute_merkle_root-total}
use ai_inference_chain.Blockchain.Block.Proofs.{collect, collect-signatures}
use ai_inference_chain.Blockchain.Chain.State.{ChainState}
use ai_inference_chain.Blockchain.Chain.Validate.{Signing, validate_block, validate_txs}
use ai_inference_chain.Qoi.Pos.{
  PosOutcome, VoteMsg, new_machine, consensus_proof, add_votes, vote_text,
}
use ai_inference_chain.Qoi.Pos.Votes.{Certified, Call, run, run-Certified, voters}
use ai_inference_chain.Qoi.Quality.{Floats}
use ai_inference_chain.Qoi.Machine.{ConsensusOutcome}
use ai_inference_chain.Qoi.Machine.Invariant as Decision
use ai_inference_chain.Qoi.SystemTxs.{Ids, build_system_txs}
use ai_inference_chain.Qoi.Machine as Qoi
use ai_inference_chain.Qoi.Machine.Calls as Calls
use ai_inference_chain.Qoi.Machine.Scored.{IsScored, OutcomeScored, run-OutcomeScored}
use ai_inference_chain.Consensus.BlockBuilder.Rescored.{rescore-total}
use ai_inference_chain.Consensus.BlockBuilder.{
  pos_block, build_pos_block, qoi_block, build_qoi_block,
}
use mathlib.Core.List.{append-nil}

-- A block that follows the tip, with enough signatures, its root and valid transactions.
validate_block-ok :
    (h : Hashes) (sg : Signing) (f : ℕ) (tip b : Block) (s : ChainState)
    → b.header.prev_hash ≡ block_hash h tip
    → b.header.height ≡ tip.header.height + 1
    → is_valid b.consensus_proof f ≡ true
    → verify_merkle_root h b ≡ true
    → validate_txs sg b.simple_txs [] s ≡ ok tt
    → validate_block h sg f (some tip) b s ≡ ok tt
unfolding validate_block
validate_block-ok h sg f tip b s e1 e2 e3 e4 e5 = ground (arith, e1, e2, e3, e4, e5)

-- The votes as signatures.
abbrev signatures_of : List VoteMsg → List (Text × Text)
signatures_of [] = []
signatures_of (v ∷ vs) =
    (v.node_id, if is_truthy v.signature then v.signature else vote_text) ∷ signatures_of vs

add_votes-collect :
    (vs : List VoteMsg) (p : ConsensusProof) → add_votes vs p ≡ collect (signatures_of vs) p
add_votes-collect [] p = refl
add_votes-collect (v ∷ vs) p = add_votes-collect vs _

keys-signatures_of : (vs : List VoteMsg) → keys (signatures_of vs) ≡ voters vs
keys-signatures_of [] = refl
keys-signatures_of (v ∷ vs) = ap (◌∷◌ v.node_id) (keys-signatures_of vs)

length-signatures_of : (vs : List VoteMsg) → length (signatures_of vs) ≡ length vs
length-signatures_of [] = refl
length-signatures_of (v ∷ vs) = ap suc (length-signatures_of vs)

consensus_proof-valid :
    (f : ℕ) (o : PosOutcome) → Certified f (some o) → is_valid (consensus_proof o) f ≡ true
unfolding consensus_proof
consensus_proof-valid f o (many, distinct) =
    let empty : ConsensusProof = record {
      consensus_type = BlockType.pos;
      view = o.block.header.view;
      signatures = [];
    } in
    let signed : (consensus_proof o).signatures ≡ signatures_of o.votes =
      ap (λ p. p.signatures) (add_votes-collect o.votes empty)
      ∙ collect-signatures (signatures_of o.votes) empty refl
          (subst IsDistinct (sym (keys-signatures_of o.votes)) distinct) in
    ground (arith, many, ap (λ ss. length ss) signed, length-signatures_of o.votes)

verified :
    (h : Hashes) (b : Block) (root : Text)
    → compute_merkle_root h (all_transactions b) ≡ some root
    → b.header.merkle_root ≡ root
    → verify_merkle_root h b ≡ true
unfolding verify_merkle_root
verified h b root e same = ground (arith, e, same)

-- Once the votes have committed a block, `build_pos_block` makes a block on top of the tip which
-- the chain accepts, with the given transactions. Conditions: the outcome is that of a machine
-- after whatever calls, and the transactions pass the chain's checks.
pub build_pos_block-accepted :
    (h : Hashes) (sg : Signing) (now node proposer f : ℕ) (cs : List Call) (o : PosOutcome)
    (tip : Block) (simple_txs : List Transaction) (s : ChainState)
    → (run h (new_machine node proposer f) cs).outcome ≡ some o
    → validate_txs sg simple_txs [] s ≡ ok tt
    → (b : Block) × (build_pos_block h now (block_hash h tip) (tip.header.height + 1) simple_txs o
        ≡ some b)
      × (b.simple_txs ≡ simple_txs)
      × (validate_block h sg f (some tip) b s ≡ ok tt)
unfolding build_pos_block validate_structure
build_pos_block-accepted h sg now node proposer f cs o tip simple_txs s e valid =
    let (root, r) = compute_merkle_root-total h simple_txs in
    let b : Block = pos_block now (block_hash h tip) (tip.header.height + 1) simple_txs o root in
    (
      b,
      ground (arith, r),
      refl,
      validate_block-ok h sg f tip b s refl refl
          (consensus_proof-valid f o (subst (Certified f) e (run-Certified h node proposer f cs)))
          (verified h b root (ap (compute_merkle_root h) (append-nil simple_txs) ∙ r) refl) valid,
    )

module _ (fl : Floats) (amount_of : fl.Float → Amount) where
  -- The commits of 2f+1 different nodes are enough signatures for a chain with no greater bound.
  commits-valid :
      (f chain_f : ℕ) (o : ConsensusOutcome fl) (empty : ConsensusProof)
      → empty.signatures ≡ []
      → chain_f ≤ f
      → Decision.Certified fl f (some o)
      → is_valid (collect o.commit_signatures empty) chain_f ≡ true
  commits-valid f chain_f o empty e le (many, distinct) = ground (
    arith,
    le,
    many,
    ap (λ ss. length ss) (collect-signatures o.commit_signatures empty e distinct),
  )

  -- From the outcome of a round `build_qoi_block` makes a block on top of the tip which the chain
  -- accepts, with the request and the given transactions: no exception is raised on the way.
  -- Conditions: the fault bound of the chain is at most that of the machine, which has that of its
  -- elected quorum (a chain with a greater one can refuse the block for its signatures); the outcome
  -- is that of a machine after whatever calls, none of which is a `start_round` that raises for want
  -- of a greatest probability; the request is of the inference family; and the transactions pass the
  -- chain's checks.
  pub build_qoi_block-accepted :
      (h : Hashes) (sg : Signing) (id_of : Ids) (clock : ℕ → ℕ) (now node primary f chain_f : ℕ)
      (cs : List (Calls.Call fl)) (proposer : Text) (tip : Block) (inference_tx : Transaction)
      (simple_txs : List Transaction) (o : ConsensusOutcome fl) (fees : fl.Float) (s : ChainState)
      → chain_f ≤ f
      → All (Decision.HasArgmax fl) cs
      → (Calls.run fl (Qoi.new_machine fl node primary f) cs).outcome ≡ some o
      → is_inference inference_tx ≡ true
      → validate_txs sg simple_txs [] s ≡ ok tt
      → (b : Block) × (build_qoi_block fl amount_of h id_of clock now
            (block_hash h tip)
            (tip.header.height + 1)
            proposer
            inference_tx
            simple_txs
            o
            fees
          ≡ some b)
        × (b.inference_tx ≡ some inference_tx)
        × (b.simple_txs ≡ simple_txs)
        × (validate_block h sg chain_f (some tip) b s ≡ ok tt)
  unfolding build_qoi_block validate_structure
  build_qoi_block-accepted h sg id_of clock now node primary f chain_f cs proposer tip inference_tx
        simple_txs o fees s le args e family valid =
      let quorum : Decision.Certified fl f (some o) =
        subst (Decision.Certified fl f) e (Decision.run-Decided fl node primary f cs args).0 in
      let scored : IsScored fl o =
        subst (OutcomeScored fl) e (run-OutcomeScored fl node primary f cs) in
      let (r, again) = rescore-total fl fees o scored in
      let final : ConsensusOutcome fl = record o { round_result = r; elected_quorum = [] } in
      let system_txs : List Transaction = build_system_txs fl amount_of id_of clock final in
      let (root, rooted) = compute_merkle_root-total h (inference_tx ∷ simple_txs ++ system_txs) in
      let b : Block =
        qoi_block fl amount_of now (block_hash h tip) (tip.header.height + 1) proposer inference_tx
          simple_txs o system_txs root in
      (
        b,
        ground (arith, again, rooted, family),
        refl,
        refl,
        validate_block-ok h sg chain_f tip b s refl refl
            (commits-valid f chain_f o _ refl le quorum) (verified h b root rooted refl) valid,
      )
