-- ===== src/Blockchain/Codec/Json.antt =====
-- The values that `to_dict` writes into a dict, and how `from_dict` reads them. A Python float in
-- such a dict is exact, as everywhere here. A key that is not there is a KeyError, and a value that
-- is no member of an enum a ValueError. The code does not look at the type of a value that it
-- reads: of dicts with a value of another type than `to_dict` writes, this says only `ill_typed`.
use ai_inference_chain.Prelude.{ℕ, Bool, none, some, List, Result, ok, err}
use ai_inference_chain.Prelude.Int.{ℤ}
use ai_inference_chain.Prelude.Dict.{Dict, lookup}
use ai_inference_chain.Blockchain.Constants.{Text, Blob, Amount}
use ai_inference_chain.Blockchain.Transaction.{Signature}

pub data Json : Type 0 where
  text : Text → Json
  int : ℤ → Json
  nat : ℕ → Json
  number : Amount → Json
  flag : Bool → Json
  blob : Blob → Json
  ints : List ℤ → Json
  numbers : List Amount → Json
  texts : List Text → Json
  pairs : List (Text × Text) → Json
  sig : Signature → Json

pub data CodecError : Type 0 where
  missing_key unknown_member bad_structure ill_typed : CodecError

-- `d[k]`
abbrev pub at {ℓ} : {A : Type ℓ} → ℕ → Dict A → Result CodecError A
at k d = elim (lookup k d) [ none ↦ err missing_key | some v ↦ ok v ]

abbrev pub as_text : Json → Result CodecError (Text)
as_text (Json.text x) = ok x
as_text _ = err ill_typed

abbrev pub as_int : Json → Result CodecError (ℤ)
as_int (Json.int x) = ok x
as_int _ = err ill_typed

abbrev pub as_nat : Json → Result CodecError (ℕ)
as_nat (Json.nat x) = ok x
as_nat _ = err ill_typed

abbrev pub as_number : Json → Result CodecError (Amount)
as_number (Json.number x) = ok x
as_number _ = err ill_typed

abbrev pub as_flag : Json → Result CodecError (Bool)
as_flag (Json.flag x) = ok x
as_flag _ = err ill_typed

abbrev pub as_blob : Json → Result CodecError (Blob)
as_blob (Json.blob x) = ok x
as_blob _ = err ill_typed

abbrev pub as_ints : Json → Result CodecError (List ℤ)
as_ints (Json.ints x) = ok x
as_ints _ = err ill_typed

abbrev pub as_numbers : Json → Result CodecError (List Amount)
as_numbers (Json.numbers x) = ok x
as_numbers _ = err ill_typed

abbrev pub as_texts : Json → Result CodecError (List Text)
as_texts (Json.texts x) = ok x
as_texts _ = err ill_typed

abbrev pub as_pairs : Json → Result CodecError (List (Text × Text))
as_pairs (Json.pairs x) = ok x
as_pairs _ = err ill_typed

abbrev pub as_sig : Json → Result CodecError (Signature)
as_sig (Json.sig x) = ok x
as_sig _ = err ill_typed
