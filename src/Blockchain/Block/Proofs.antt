-- ===== src/Blockchain/Block/Proofs.antt =====
-- `ConsensusProof` of core/blockchain/block.py: who has signed.
use ai_inference_chain.Prelude.{
  ◌≡◌, refl, sym, ap, subst, ◌∙◌, false, inl, inr, Bool-cases, List, [], ◌∷◌, ◌++◌, arith, All,
}
use mathlib.Core.List.{append-nil, append_assoc}
use ai_inference_chain.Prelude.Dict.{keys, Fresh, IsDistinct, Fresh-append}
use ai_inference_chain.Blockchain.Constants.{Text}
use ai_inference_chain.Blockchain.Block.{ConsensusProof, has_signer, add_signature}

abbrev pub signers : ConsensusProof → List Text
signers p = keys p.signatures

-- An empty proof, and one extended by each vote in turn.
abbrev pub collect : List (Text × Text) → ConsensusProof → ConsensusProof
collect [] p = p
collect ((n, s) ∷ votes) p = collect votes (add_signature p n s)

has_signer-Fresh :
    (n : Text) (ss : List (Text × Text)) → has_signer n ss ≡ false → Fresh n (keys ss)
has_signer-Fresh n [] e = tt
has_signer-Fresh n ((m, s) ∷ ss) e = ground (arith, has_signer-Fresh n ss)

IsDistinct-append :
    (n s : Text) (ss : List (Text × Text))
    → IsDistinct (keys ss)
    → Fresh n (keys ss)
    → IsDistinct (keys (ss ++ (n, s) ∷ []))
IsDistinct-append n s [] d f = (tt, tt)
IsDistinct-append n s ((m, t) ∷ ss) d f =
    (Fresh-append m n s ss d.0 (λ e. f.0 (sym e)), IsDistinct-append n s ss d.1 f.1)

add_signature-IsDistinct :
    (p : ConsensusProof) (n s : Text)
    → IsDistinct (signers p)
    → IsDistinct (signers (add_signature p n s))
add_signature-IsDistinct p n s d = elim (Bool-cases (has_signer n p.signatures)) [
  | inl e ↦ rw e d
  | inr e ↦ rw e (IsDistinct-append n s p.signatures d (has_signer-Fresh n p.signatures e))
]

-- A proof that is built by `add_signature` from one whose signers are distinct never names a node
-- twice.
collect-IsDistinct :
    (votes : List (Text × Text)) (p : ConsensusProof)
    → IsDistinct (signers p)
    → IsDistinct (signers (collect votes p))
collect-IsDistinct [] p d = d
collect-IsDistinct ((n, s) ∷ votes) p d =
    collect-IsDistinct votes (add_signature p n s) (add_signature-IsDistinct p n s d)

Fresh-has_signer :
    (n : Text) (ss : List (Text × Text)) → Fresh n (keys ss) → has_signer n ss ≡ false
Fresh-has_signer n [] f = refl
Fresh-has_signer n ((m, s) ∷ ss) f = ground (arith, Fresh-has_signer n ss f.1)

-- None of the voters has signed yet.
abbrev NotSigned : List (Text × Text) → List (Text × Text) → Type 0
NotSigned ss votes = All (λ v. Fresh v.0 (keys ss)) votes

NotSigned-append :
    (n s : Text) (ss votes : List (Text × Text))
    → Fresh n (keys votes)
    → NotSigned ss votes
    → NotSigned (ss ++ (n, s) ∷ []) votes
NotSigned-append n s ss [] f h = tt
NotSigned-append n s ss ((m, t) ∷ votes) f h =
    (Fresh-append m n s ss h.0 (λ e. f.0 (sym e)), NotSigned-append n s ss votes f.1 h.1)

collect-append :
    (votes : List (Text × Text)) (p : ConsensusProof)
    → IsDistinct (keys votes)
    → NotSigned p.signatures votes
    → (collect votes p).signatures ≡ p.signatures ++ votes
collect-append [] p d h = sym (append-nil p.signatures)
collect-append ((n, s) ∷ votes) p d h =
    let added : add_signature p n s ≡ record p { signatures = p.signatures ++ (n, s) ∷ [] } =
      rw (Fresh-has_signer n p.signatures h.0) refl in
    ap (λ q. (collect votes q).signatures) added
    ∙ collect-append votes (record p { signatures = p.signatures ++ (n, s) ∷ [] }) d.1
        (NotSigned-append n s p.signatures votes d.0 h.1)
    ∙ append_assoc p.signatures ((n, s) ∷ []) votes

NotSigned-nil : (votes : List (Text × Text)) → NotSigned [] votes
NotSigned-nil [] = tt
NotSigned-nil (v ∷ votes) = (tt, NotSigned-nil votes)

-- An empty proof takes every vote of distinct nodes.
pub collect-signatures :
    (votes : List (Text × Text)) (p : ConsensusProof)
    → p.signatures ≡ []
    → IsDistinct (keys votes)
    → (collect votes p).signatures ≡ votes
collect-signatures votes p e d =
    collect-append votes p d (subst (λ ss. NotSigned ss votes) (sym e) (NotSigned-nil votes))
    ∙ ap (λ ss. ss ++ votes) e
