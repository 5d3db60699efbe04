-- ===== src/Blockchain/Chain/Links.antt =====
-- The shape of the chain that `Chain.__init__` and `append` of core/blockchain/chain.py build.
use ai_inference_chain.Prelude.{
  ℕ, zero, suc, ◌+◌, ◌≡◌, ◌⊎◌, ◌>>=◌, subst, refl, true, inl, inr, Option, Option-cases, none, some,
  List, [], ◌∷◌, ◌++◌, arith, Result, ok, err, last?, get_elem?,
}
use ai_inference_chain.Blockchain.Block.{Block, Hashes, block_hash, is_valid, verify_merkle_root}
use ai_inference_chain.Blockchain.Chain.{Chain, append, new_chain, get_block}
use ai_inference_chain.Blockchain.Chain.State.{ChainState, empty_state}
use ai_inference_chain.Blockchain.Chain.Apply.{apply_block}
use ai_inference_chain.Blockchain.Chain.Validate.{ChainError, Signing, validate_block}
use ai_inference_chain.Blockchain.Chain.Replay.{append-ok}

-- A block behind another names its hash and has the next height; the first has height 0.
abbrev pub Follows : Hashes → Option Block → Block → Type 0
Follows h none b = b.header.height ≡ 0
Follows h (some a) b =
    (b.header.prev_hash ≡ block_hash h a) × (b.header.height ≡ a.header.height + 1)

abbrev pub Linked : Hashes → Option Block → List Block → Type 0
Linked h prev [] = Unit {0}
Linked h prev (b ∷ bs) = Follows h prev b × Linked h (some b) bs

-- Every block but the first carries the root of its transactions and 2f+1 signatures.
abbrev pub IsSealed : Hashes → ℕ → Block → Type 0
IsSealed h f b = (verify_merkle_root h b ≡ true) × (is_valid b.consensus_proof f ≡ true)

abbrev pub AllSealed : Hashes → ℕ → List Block → Type 0
AllSealed h f [] = Unit {0}
AllSealed h f (b ∷ bs) = IsSealed h f b × AllSealed h f bs

-- The state that a list of blocks leads to.
abbrev pub replay : Hashes → List Block → ChainState → ChainState
replay h [] s = s
replay h (b ∷ bs) s = replay h bs (apply_block h b s)

-- What holds of every chain: it begins with a genesis block of height 0, each later block is
-- linked to the one before and sealed, and the state is what the blocks lead to.
pub record IsLedger (h : Hashes) (c : Chain) : Type 0 where
  pub genesis : Block
  pub rest : List Block
  pub shape : c.blocks ≡ genesis ∷ rest
  pub linked : Linked h none c.blocks
  pub all_sealed : AllSealed h c.f rest
  pub replayed : c.state ≡ replay h c.blocks empty_state

pub new_chain-IsLedger :
    (h : Hashes) (f : ℕ) (g : Block) → g.header.height ≡ 0 → IsLedger h (new_chain h f g)
unfolding new_chain
new_chain-IsLedger h f g z = record {
  genesis = g;
  rest = [];
  shape = refl;
  linked = (z, tt);
  all_sealed = tt;
  replayed = refl;
}

ok-injective {ℓ} : {A : Type ℓ} {E : Type ℓ} (a b : A) → Path (Result E A) (ok a) (ok b) → a ≡ b
ok-injective a b e = cc

Result-cases {ℓ} :
    {E A : Type ℓ} (r : Result E A) → ((x : E) × (r ≡ err x)) ⊎ ((a : A) × (r ≡ ok a))
Result-cases (ok a) = inr (a, refl)
Result-cases (err x) = inl (x, refl)

Linked-append :
    (h : Hashes) (prev : Option Block) (bs : List Block) (t b : Block)
    → last? bs ≡ some t
    → Linked h prev bs
    → Follows h (some t) b
    → Linked h prev (bs ++ b ∷ [])
Linked-append h prev [] t b e l k = cc
Linked-append h prev (x ∷ []) t b e l k = (l.0, (ground arith, tt))
Linked-append h prev (x ∷ y ∷ bs) t b e l k = (l.0, Linked-append h (some x) (y ∷ bs) t b e l.1 k)

AllSealed-append :
    (h : Hashes) (f : ℕ) (bs : List Block) (b : Block)
    → AllSealed h f bs
    → IsSealed h f b
    → AllSealed h f (bs ++ b ∷ [])
AllSealed-append h f [] b a k = (k, tt)
AllSealed-append h f (x ∷ bs) b a k = (a.0, AllSealed-append h f bs b a.1 k)

replay-append :
    (h : Hashes) (bs : List Block) (b : Block) (s : ChainState)
    → replay h (bs ++ b ∷ []) s ≡ apply_block h b (replay h bs s)
replay-append h [] b s = refl
replay-append h (x ∷ bs) b s = replay-append h bs b (apply_block h x s)

-- What `append` has checked of the block itself.
append-Follows :
    (h : Hashes) (sg : Signing) (b : Block) (c c' : Chain)
    → append h sg b c ≡ ok c'
    → (t : Block) × (last? c.blocks ≡ some t) × Follows h (some t) b × IsSealed h c.f b
unfolding append validate_block
append-Follows h sg b c c' e = elim (Option-cases (last? c.blocks)) [
  | inl n ↦ absurd (ground arith)
  | inr (t, s) ↦ (t, s, ground arith, ground arith)
]

-- A successful `append` keeps the chain a ledger.
append-IsLedger :
    (h : Hashes) (sg : Signing) (b : Block) (c c' : Chain)
    → append h sg b c ≡ ok c'
    → IsLedger h c
    → IsLedger h c'
append-IsLedger h sg b c c' e l =
    let (valid, made) = append-ok h sg b c c' e in
    let (t, last, follows, sealed) = append-Follows h sg b c c' e in
    rw made (record {
      genesis = l.genesis;
      rest = l.rest ++ b ∷ [];
      shape = rw l.shape;
      linked = Linked-append h none c.blocks t b last l.linked follows;
      all_sealed = AllSealed-append h c.f l.rest b l.all_sealed sealed;
      replayed = rw (replay-append h c.blocks b empty_state, ← l.replayed);
    })

-- `append` for each block in turn; the first that is refused ends it.
abbrev pub append_all : Hashes → Signing → List Block → Chain → Result ChainError Chain
append_all h sg [] c = ok c
append_all h sg (b ∷ bs) c = append h sg b c >>= append_all h sg bs

append_all-IsLedger :
    (h : Hashes) (sg : Signing) (bs : List Block) (c c' : Chain)
    → append_all h sg bs c ≡ ok c'
    → IsLedger h c
    → IsLedger h c'
append_all-IsLedger h sg [] c c' e l = subst (IsLedger h) (ok-injective c c' e) l
append_all-IsLedger h sg (b ∷ bs) c c' e l = elim (Result-cases (append h sg b c)) [
  | inl (x, f) ↦ absurd (ground (arith, e, f))
  | inr (d, f) ↦
      append_all-IsLedger h sg bs d c' (ground (arith, e, f)) (append-IsLedger h sg b c d f l)
]

-- Every chain that is made from a genesis block of height 0 by successful appends is a ledger:
-- linked by hashes and heights, each later block with the root of its transactions and 2f+1
-- signatures, and with the state that replaying its blocks from the empty state leads to.
pub new_chain-IsLedger_after :
    (h : Hashes) (sg : Signing) (f : ℕ) (genesis : Block) (bs : List Block) (c : Chain)
    → genesis.header.height ≡ 0
    → append_all h sg bs (new_chain h f genesis) ≡ ok c
    → IsLedger h c
new_chain-IsLedger_after h sg f genesis bs c z e =
    append_all-IsLedger h sg bs (new_chain h f genesis) c e (new_chain-IsLedger h f genesis z)

Linked-height :
    (h : Hashes) (a : Block) (bs : List Block) (i : ℕ) (b : Block)
    → Linked h (some a) bs
    → get_elem? bs i ≡ some b
    → b.header.height ≡ a.header.height + i + 1
Linked-height h a [] i b l e = cc
Linked-height h a (x ∷ bs) zero b l e = ground arith
Linked-height h a (x ∷ bs) (suc i) b l e = omega (arith, Linked-height h x bs i b l.1 e)

genesis-height :
    (h : Hashes) (g : Block) (bs : List Block) (i : ℕ) (b : Block)
    → Linked h none (g ∷ bs)
    → get_elem? (g ∷ bs) i ≡ some b
    → b.header.height ≡ i
genesis-height h g bs zero b l e = ground arith
genesis-height h g bs (suc i) b l e = omega (arith, Linked-height h g bs i b l.1 e, l.0)

-- In a ledger the block at index i has height i, so `get_block` finds a block by its height.
get_block-height :
    (h : Hashes) (c : Chain) (i : ℕ) (b : Block)
    → IsLedger h c
    → get_block i c ≡ some b
    → b.header.height ≡ i
unfolding get_block
get_block-height h c i b l e =
    genesis-height h l.genesis l.rest i b (rw l.shape at l.linked) (rw l.shape at e)
