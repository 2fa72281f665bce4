-- ===== src/Wire/Fields.antt =====
-- The fixed arrays of the messages: 32-byte keys and 64-byte signatures.
use roots.Prelude.{
  ℕ, ◌+◌, ◌<◌, ◌^◌, ◌≡◌, refl, ap, sym, ◌∙◌, append_assoc, length-append, drop-drop, List, ◌++◌,
  arith, length, take, drop, take-append, drop-append,
}
use roots.Prelude.Bytes.{be_bytes, of_be, length-be_bytes, of_be-be_bytes}
use roots.Error.{Error, ok, ok_or}
use roots.Wire.Uvarint.{read_uvarint}
use roots.Wire.Uvarint.Equations.{uvarint}
use roots.Wire.Uvarint.RoundTrip.{read_uvarint-uvarint}

abbrev pub key_len : ℕ
key_len = 32

abbrev pub sig_len : ℕ
sig_len = 64

abbrev pub IsU64 : ℕ → Type 0
IsU64 v = v < 2 ^ 64

abbrev pub IsKey : ℕ → Type 0
IsKey k = k < 2 ^ 256

abbrev pub IsSig : ℕ → Type 0
IsSig s = s < 2 ^ 512

module _ (n v : ℕ) (rest : List ℕ) where
  pub take-be_bytes : take n (be_bytes n v ++ rest) ≡ be_bytes n v
  take-be_bytes = take-append (be_bytes n v) rest n (length-be_bytes n v)

  pub drop-be_bytes : drop n (be_bytes n v ++ rest) ≡ rest
  drop-be_bytes = drop-append (be_bytes n v) rest n (length-be_bytes n v)

  pub of_be-field : v < 256 ^ n → of_be (take n (be_bytes n v ++ rest)) ≡ v
  of_be-field h = ap of_be take-be_bytes ∙ of_be-be_bytes n v h

module _ (v : ℕ) (rest : List ℕ) (fits : IsU64 v) where
  pub read-field :
      (e : Error) → ok_or (read_uvarint (uvarint v ++ rest)) e ≡ ok (v, length (uvarint v))
  read-field e = ap (λ r. ok_or r e) (read_uvarint-uvarint v rest fits)

  pub drop-field : drop (length (uvarint v)) (uvarint v ++ rest) ≡ rest
  drop-field = drop-append (uvarint v) rest (length (uvarint v)) refl

-- Two keys in front.
module _ (k p : ℕ) where
  abbrev pub two_keys : List ℕ → List ℕ
  two_keys rest = be_bytes 32 k ++ (be_bytes 32 p ++ rest)

  pub length-two_keys : (rest : List ℕ) → length (two_keys rest) ≡ 64 + length rest
  length-two_keys rest = omega (
    arith,
    length-append (be_bytes 32 k) (be_bytes 32 p ++ rest),
    length-append (be_bytes 32 p) rest,
    length-be_bytes 32 k,
    length-be_bytes 32 p,
  )

  pub drop-two_keys : (rest : List ℕ) → drop 64 (two_keys rest) ≡ rest
  drop-two_keys rest =
      ap (drop 64) (sym (append_assoc (be_bytes 32 k) (be_bytes 32 p) rest))
      ∙ drop-append (be_bytes 32 k ++ be_bytes 32 p) rest 64 (
          omega (
            arith,
            length-append (be_bytes 32 k) (be_bytes 32 p),
            length-be_bytes 32 k,
            length-be_bytes 32 p,
          ))

  pub drop_past_keys : (n : ℕ) (rest : List ℕ) → drop (64 + n) (two_keys rest) ≡ drop n rest
  drop_past_keys n rest = sym (drop-drop 64 n (two_keys rest)) ∙ ap (drop n) (drop-two_keys rest)

  pub first_key : (rest : List ℕ) → IsKey k → of_be (take 32 (two_keys rest)) ≡ k
  first_key rest h = of_be-field 32 k (be_bytes 32 p ++ rest) h

  pub second_key : (rest : List ℕ) → IsKey p → of_be (take 32 (drop 32 (two_keys rest))) ≡ p
  second_key rest h =
      ap (λ (xs : List ℕ). of_be (take 32 xs)) (drop-be_bytes 32 k (be_bytes 32 p ++ rest))
      ∙ of_be-field 32 p rest h
