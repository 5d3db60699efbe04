-- ===== src/Node/Pom/Tally.antt =====
-- The verdict of core/node/pom.py on a node, over the verifications that are added.
use ai_inference_chain.Prelude.{
  ℕ, ◌+◌, Bool, Option, none, some, List, [], ◌∷◌, length, if◌then◌else◌,
}
use ai_inference_chain.Blockchain.Constants.{Text}
use ai_inference_chain.Blockchain.Transaction.{Transaction, TxType, type_of}
use ai_inference_chain.Qoi.Quality.{Floats}
use ai_inference_chain.Node.Pom.{PomVerificationState, add_verify, is_admitted_by, is_rejected_by}

-- The type of the transaction that a tally builds.
abbrev pub kind : Option Transaction → Option TxType
kind none = none
kind (some tx) = some (type_of tx.payload)

-- The verdict on so many positive and negative verifications.
abbrev verdict : ℕ → ℕ → ℕ → ℕ → Option TxType
verdict f total p n =
    if is_admitted_by f p
    then some TxType.node_admitted
    else if is_rejected_by f total p n
    then some TxType.node_rejected
    else none

module _ (fl : Floats) where
  -- Verifications in the order in which they are added.
  abbrev pub add_all :
      List (Text × Bool × fl.Float) → PomVerificationState fl → PomVerificationState fl
  add_all [] s = s
  add_all ((v, ok, a) ∷ vs) s = add_all vs (add_verify fl v ok a s)

  -- How many have verified.
  abbrev pub voters : PomVerificationState fl → ℕ
  voters s = length s.positive + length s.negative
