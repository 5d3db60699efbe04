-- ===== src/Qoi/Machine/Agreement.antt =====
-- Two nodes with a machine of core/qoi/state_machine.py, among at most 3f+1 nodes of which f lie.
use ai_inference_chain.Prelude.{
  ℕ, ◌+◌, ◌*◌, ◌≤◌, ◌≡◌, refl, sym, ◌∙◌, true, false, some, List, [], ◌∷◌, is_member, ◌==◌,
  if◌then◌else◌, length, arith,
}
use ai_inference_chain.Prelude.Dict.{Dict, keys, values, IsDistinct, Fresh}
use ai_inference_chain.Prelude.Quorums.{IsSubset, quorums-Shared}
use ai_inference_chain.Blockchain.Constants.{Text}
use ai_inference_chain.Qoi.Quality.{Floats}
use ai_inference_chain.Qoi.Messages.{PrepareMsg}
use ai_inference_chain.Qoi.Machine.{Machine}
use ai_inference_chain.Qoi.Machine.Voting.{compute_consensus_class}
use ai_inference_chain.Qoi.Machine.Tally.{votes_for, compute_consensus_class_sound}

module _ (fl : Floats) where
  -- The nodes whose PREPARE names the class.
  abbrev pub voters_for : ℕ → Dict (PrepareMsg fl) → List Text
  voters_for c [] = []
  voters_for c ((z, m) ∷ d) = if m.predicted_class == c then z ∷ voters_for c d else voters_for c d

  length-voters_for :
      (c : ℕ) (d : Dict (PrepareMsg fl)) → length (voters_for c d) ≡ votes_for fl c (values d)
  length-voters_for c [] = refl
  length-voters_for c ((z, m) ∷ d) = ground (arith, length-voters_for c d)

  voters_for-Fresh :
      (c z : ℕ) (d : Dict (PrepareMsg fl)) → Fresh z (keys d) → Fresh z (voters_for c d)
  voters_for-Fresh c z [] h = tt
  voters_for-Fresh c z ((y, m) ∷ d) h = ground (arith, h.0, voters_for-Fresh c z d h.1)

  voters_for-IsDistinct :
      (c : ℕ) (d : Dict (PrepareMsg fl)) → IsDistinct (keys d) → IsDistinct (voters_for c d)
  voters_for-IsDistinct c [] h = tt
  voters_for-IsDistinct c ((z, m) ∷ d) h =
      ground (arith, voters_for-IsDistinct c d h.1, voters_for-Fresh c z d h.0)

  voters_for-IsSubset :
      (c : ℕ) (d : Dict (PrepareMsg fl)) (nodes : List Text)
      → IsSubset (keys d) nodes
      → IsSubset (voters_for c d) nodes
  voters_for-IsSubset c [] nodes h = tt
  voters_for-IsSubset c ((z, m) ∷ d) nodes h =
      ground (arith, h.0, voters_for-IsSubset c d nodes h.1)

  -- The PREPAREs on file from honest nodes name the classes that those nodes vote for.
  abbrev pub Heard : (Text → ℕ) → List Text → Dict (PrepareMsg fl) → Type 0
  Heard vote bad [] = Unit
  Heard vote bad ((z, m) ∷ d) =
      (is_member z bad ≡ false → m.predicted_class ≡ vote z) × Heard vote bad d

  voters_for-Heard :
      (vote : Text → ℕ) (bad : List Text) (c z : ℕ) (d : Dict (PrepareMsg fl))
      → Heard vote bad d
      → is_member z bad ≡ false
      → is_member z (voters_for c d) ≡ true
      → vote z ≡ c
  voters_for-Heard vote bad c z [] h g e = absurd (cc)
  voters_for-Heard vote bad c z ((y, m) ∷ d) h g e =
      ground (arith, h.0, voters_for-Heard vote bad c z d h.1 g)

  -- A machine of a network of `nodes`: its PREPAREs are from different nodes of the network.
  pub record IsMember (f : ℕ) (nodes : List Text) (m : Machine fl) : Type 0 where
    pub same_f : m.f ≡ f
    pub distinct : IsDistinct (keys m.prepares)
    pub known : IsSubset (keys m.prepares) nodes

  quorum :
      (f c : ℕ) (nodes : List Text) (m : Machine fl)
      → IsMember f nodes m
      → compute_consensus_class fl m ≡ some c
      → 2 * f + 1 ≤ length (voters_for c m.prepares)
  quorum f c nodes m i e =
      omega
        (arith, i.same_f, compute_consensus_class_sound fl m c e, length-voters_for c m.prepares)

  -- Agreement: among at most 3f+1 nodes, two machines settle on the same class, whichever PREPAREs
  -- each has on file. Conditions: a machine's PREPAREs are from different nodes of the network, and
  -- all but f nodes are honest, so that both machines hold the same vote from such a node if they
  -- hold one.
  pub compute_consensus_class-agree :
      (f : ℕ) (nodes bad : List Text) (vote : Text → ℕ) (m n : Machine fl) (c d : ℕ)
      → IsDistinct nodes
      → length nodes ≤ 3 * f + 1
      → length bad ≤ f
      → IsMember f nodes m
      → IsMember f nodes n
      → Heard vote bad m.prepares
      → Heard vote bad n.prepares
      → compute_consensus_class fl m ≡ some c
      → compute_consensus_class fl n ≡ some d
      → c ≡ d
  compute_consensus_class-agree f nodes bad vote m n c d dn ln lb im in' hm hn em en =
      let (z, zm, zn, zb) =
        quorums-Shared f nodes bad (voters_for c m.prepares) (voters_for d n.prepares) dn ln lb
          (voters_for-IsDistinct c m.prepares im.distinct)
          (voters_for-IsSubset c m.prepares nodes im.known) (quorum f c nodes m im em)
          (voters_for-IsDistinct d n.prepares in'.distinct)
          (voters_for-IsSubset d n.prepares nodes in'.known) (quorum f d nodes n in' en) in
      sym (voters_for-Heard vote bad c z m.prepares hm zb zm)
      ∙ voters_for-Heard vote bad d z n.prepares hn zb zn
