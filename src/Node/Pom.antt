-- ===== src/Node/Pom.antt =====
-- core/node/pom.py. An accuracy is a float; `amount_of` reads it as an amount of the ledger. The
-- digests of SHA-256 are a parameter: the four numbers of 8 bytes in the digest of the seed with a
-- counter. The public labels of the test set are an argument.
pub mod Challenge
pub mod Tally
mod Tests
use ai_inference_chain.Prelude.{
  ℕ, zero, suc, ◌+◌, ◌*◌, ◌%◌, Bool, true, false, not, ◌&&◌, ◌||◌, Option, none, some, List, [],
  ◌∷◌, ◌++◌, length, get_elem?, take, ltb, leb, ◌==◌, if◌then◌else◌,
}
use ai_inference_chain.Prelude.Int.{ℤ, pos, ◌-ℤ◌, ◌+ℤ◌, leb_ℤ, ltb_ℤ}
use ai_inference_chain.Blockchain.Constants.{Text, Amount, no_text}
use ai_inference_chain.Blockchain.Transaction.{
  Transaction, Payload, ModelChallengePayload, ModelResponsePayload, ModelVerifyPayload,
  NodeAdmittedPayload, NodeRejectedPayload,
}
use ai_inference_chain.Qoi.Quality.{Floats, zero_float, ◌>>=◌}
use ai_inference_chain.Qoi.SystemTxs.{Ids, new_transaction, zero_address}

-- `x in xs`
abbrev pub is_in : ℕ → List ℕ → Bool
is_in x [] = false
is_in x (y ∷ ys) = if x == y then true else is_in x ys

-- The numbers of one digest, up to the n-th index.
unfoldable pub absorb : ℕ → ℕ → List ℕ → List ℕ → List ℕ
absorb size n [] indices = indices
absorb size n (v ∷ vs) indices =
    let indices' = if is_in (v % size) indices then indices else indices ++ v % size ∷ [] in
    let rest = absorb size n vs indices' in if length indices' == n then indices' else rest

-- The `while` loop, on as many digests as the fuel; `digest` gives the numbers for a counter.
unfoldable pub collect_indices : ℕ → (ℕ → List ℕ) → ℕ → ℕ → ℕ → List ℕ → Option (List ℕ)
unfolding absorb
collect_indices size digest n zero counter indices =
    if ltb (length indices) n then none else some (take n indices)
collect_indices size digest n (suc fuel) counter indices =
    let rest =
      collect_indices size digest n fuel (counter + 1) (absorb size n (digest counter) indices) in
    if ltb (length indices) n then rest else some (take n indices)

-- `generate_challenge_indices` for the digests of the seed
unfoldable pub generate_challenge_indices : ℕ → (ℕ → List ℕ) → ℕ → ℕ → Option (List ℕ)
unfolding collect_indices
generate_challenge_indices size digest n fuel = collect_indices size digest n fuel 0 []

-- `[labels[i] for i in indices]`, none for an IndexError
abbrev pub labels_at : List ℤ → List ℕ → Option (List ℤ)
labels_at labels [] = some []
labels_at labels (i ∷ more) = do l ← get_elem? labels i; ls ← labels_at labels more; some (l ∷ ls)

abbrev pub as_ints : List ℕ → List ℤ
as_ints [] = []
as_ints (n ∷ ns) = pos n ∷ as_ints ns

-- The sums of equal places.
abbrev pub count_equal : List ℤ → List ℤ → ℕ
count_equal [] gs = 0
count_equal (p ∷ ps) [] = 0
count_equal (p ∷ ps) (g ∷ gs) = (if leb_ℤ p g && leb_ℤ g p then 1 else 0) + count_equal ps gs

-- The texts of the reasons.
abbrev pub insufficient_accuracy : Text
insufficient_accuracy = 6

abbrev pub weights_mismatch : Text
weights_mismatch = 7

-- `PoMVerificationState`
pub record PomVerificationState (fl : Floats) : Type 0 where
  pub node_id : Text
  pub node_type : Text
  pub weights_hash : Text
  pub positive : List Text
  pub negative : List Text
  pub accuracies : List fl.Float

-- The counts of votes on which the two verdicts rest.
abbrev pub is_admitted_by : ℕ → ℕ → Bool
is_admitted_by f positives = leb (2 * f + 1) positives

abbrev pub is_rejected_by : ℕ → ℕ → ℕ → ℕ → Bool
is_rejected_by f total positives negatives =
    let remaining : ℤ = pos total -ℤ pos positives -ℤ pos negatives in
    let can_still_pass = leb_ℤ (pos (2 * f + 1)) (pos positives +ℤ remaining) in
    leb (2 * f + 1) negatives || not can_still_pass

module _ (id_of : Ids) (now : ℕ) where
  -- `generate_challenge_tx` of the digests for the node, none if a label is missing
  unfoldable pub generate_challenge_tx : List ℤ → Text → List ℕ → Text → ℕ → Option Transaction
  generate_challenge_tx labels node indices dataset nonce = do
    truth ← labels_at labels indices
    some (
        new_transaction id_of now zero_address no_text
          (Payload.model_challenge (record {
            node_id = node;
            challenge_indices = as_ints indices;
            ground_truth = truth;
            dataset_id = dataset;
          }))
          nonce)

module _ (fl : Floats) where
  -- none is the ZeroDivisionError for no labels and no predictions
  unfoldable pub compute_accuracy : List ℤ → List ℤ → Option fl.Float
  compute_accuracy predictions truth =
      if not (length predictions == length truth)
      then some (zero_float fl)
      else if length truth == 0
      then none
      else some (fl.div (fl.of_ℕ (count_equal predictions truth)) (fl.of_ℕ (length truth)))

  -- `accuracy >= MIN_MODEL_ACCURACY`
  abbrev pub is_accurate : fl.Float → Bool
  is_accurate a = not (fl.lt a (fl.thousandths 800))

  unfoldable pub add_verify :
      Text → Bool → fl.Float → PomVerificationState fl → PomVerificationState fl
  add_verify verifier verified accuracy s =
      if is_in verifier s.positive || is_in verifier s.negative
      then s
      else if verified
      then record s {
        positive = s.positive ++ verifier ∷ [];
        accuracies = s.accuracies ++ accuracy ∷ [];
      }
      else record s {
        negative = s.negative ++ verifier ∷ [];
        accuracies = s.accuracies ++ accuracy ∷ [];
      }

  abbrev pub is_admitted : ℕ → PomVerificationState fl → Bool
  is_admitted f s = is_admitted_by f (length s.positive)

  abbrev pub is_rejected : ℕ → ℕ → PomVerificationState fl → Bool
  is_rejected f total s = is_rejected_by f total (length s.positive) (length s.negative)

  unfoldable pub mean_accuracy : PomVerificationState fl → fl.Float
  mean_accuracy s =
      if length s.accuracies == 0
      then zero_float fl
      else fl.div (fl.sum s.accuracies) (fl.of_ℕ (length s.accuracies))

  abbrev pub any_inaccurate : List fl.Float → Bool
  any_inaccurate [] = false
  any_inaccurate (a ∷ rest) = if fl.lt a (fl.thousandths 800) then true else any_inaccurate rest

module _ (fl : Floats) (amount_of : fl.Float → Amount) (id_of : Ids) (now : ℕ) where
  unfoldable pub verify_model_response :
      ModelChallengePayload → ModelResponsePayload → Text → Text → Text → ℕ → Option Transaction
  verify_model_response challenge response verifier weights_hash verified_hash nonce = do
    accuracy ← compute_accuracy fl response.predictions challenge.ground_truth
    let weights_match = verified_hash == weights_hash
    some (
        new_transaction id_of now verifier no_text
          (Payload.model_verify (record {
            node_id = challenge.node_id;
            verified = weights_match && is_accurate fl accuracy;
            accuracy = amount_of accuracy;
            weights_match = weights_match;
          }))
          nonce)

  unfoldable pub tally_pom : PomVerificationState fl → ℕ → ℕ → ℕ → Option Transaction
  tally_pom s f total nonce =
      if is_admitted fl f s
      then some (
          new_transaction id_of now zero_address no_text
            (Payload.node_admitted (record {
              node_id = s.node_id;
              node_type = s.node_type;
              final_accuracy = amount_of (mean_accuracy fl s);
            }))
            nonce)
      else if is_rejected fl f total s
      then some (
          new_transaction id_of now zero_address no_text
            (Payload.node_rejected (record {
              node_id = s.node_id;
              reason =
                  if any_inaccurate fl s.accuracies
                  then insufficient_accuracy
                  else weights_mismatch;
            }))
            nonce)
      else none
