-- ===== src/Crypto.antt =====
-- ed25519_dalek, as far as the program calls it. A signing key is its seed.
use roots.Prelude.{ℕ, ◌<◌, ◌^◌, ◌%◌, ◌≡◌, Bool, true, List, arith, ◌==◌, ==_refl}

pub record Ed25519 : Type 0 where
  -- `key.verifying_key().to_bytes()`
  pub public_key : ℕ → ℕ
  -- `key.sign(bytes).to_bytes()`
  pub sign : ℕ → List ℕ → ℕ
  -- `VerifyingKey::from_bytes(key).and_then(|k| k.verify_strict(bytes, sig)).is_ok()`
  pub verify : ℕ → List ℕ → ℕ → Bool
  pub verify-sign :
      (seed : ℕ) (bytes : List ℕ) → verify (public_key seed) bytes (sign seed bytes) ≡ true
  pub public_key-lt : (seed : ℕ) → public_key seed < 2 ^ 256
  pub sign-lt : (seed : ℕ) (bytes : List ℕ) → sign seed bytes < 2 ^ 512

pub toy_verify : (seed : ℕ) → ((seed % 2 ^ 256) == (seed % 2 ^ 256)) ≡ true
toy_verify seed = ==_refl (seed % 2 ^ 256)

pub key_bound : (seed : ℕ) → seed % 2 ^ 256 < 2 ^ 256
key_bound seed = omega arith

pub signature_bound : (seed : ℕ) → seed % 2 ^ 256 < 2 ^ 512
signature_bound seed = omega arith

-- A scheme with these laws, for the examples.
abbrev pub toy : Ed25519
toy = record {
  public_key = λ seed. seed % 2 ^ 256;
  sign = λ seed bytes. seed % 2 ^ 256;
  verify = λ key bytes sig. key == sig;
  verify-sign = λ seed bytes. toy_verify seed;
  public_key-lt = key_bound;
  sign-lt = λ seed bytes. signature_bound seed;
}
