-- ===== src/Session/Boxes.antt =====
-- crypto_box, curve25519_dalek and sha2, as far as src/session.rs calls them, and its functions on
-- them. A precomputed box is the number that stands for its shared secret.
use roots.Prelude.{
  ℕ, ◌+◌, ◌%◌, ◌^◌, ◌<◌, ◌≡◌, ap, Bool, Option, none, some, List, [], ◌∷◌, ◌++◌, arith, length,
  take, drop, replicate, ◌==◌, ==_refl, if◌then◌else◌,
}
use roots.Prelude.Bytes.{be_bytes, of_be}
use roots.Error.{Result, ok_or, length_error}
use roots.Crypto.{Ed25519}

pub record Boxes : Type 0 where
  -- `Sha512`
  pub sha512 : List ℕ → List ℕ
  -- `CompressedEdwardsY(key).decompress().map(|p| p.to_montgomery().to_bytes())`
  pub montgomery : ℕ → Option ℕ
  -- `PublicKey::from(&secret).to_bytes()`
  pub box_public : ℕ → ℕ
  -- `SalsaBox::new(&public, &secret)`
  pub precompute : ℕ → ℕ → ℕ
  -- `encrypt(&nonce, msg)`, which cannot fail
  pub encrypt_box : ℕ → List ℕ → List ℕ → List ℕ
  -- `decrypt(&nonce, sealed).ok()`
  pub decrypt_box : ℕ → List ℕ → List ℕ → Option (List ℕ)
  -- Both ends of a key exchange agree.
  pub precompute_comm : (a b : ℕ) → precompute (box_public a) b ≡ precompute (box_public b) a
  pub decrypt-encrypt_box :
      (shared : ℕ) (nonce msg : List ℕ)
      → decrypt_box shared nonce (encrypt_box shared nonce msg) ≡ some msg
  -- A tag of sixteen bytes.
  pub length-encrypt_box :
      (shared : ℕ) (nonce msg : List ℕ) → length (encrypt_box shared nonce msg) ≡ 16 + length msg
  pub box_public-lt : (secret : ℕ) → box_public secret < 2 ^ 256

module _ (b : Boxes) where
  unfoldable pub ed_to_curve_priv : ℕ → ℕ
  ed_to_curve_priv seed = of_be (take 32 (b.sha512 (be_bytes 32 seed)))

  unfoldable pub ed_to_curve_pub : ℕ → Result ℕ
  ed_to_curve_pub pubkey = ok_or (b.montgomery pubkey) length_error

  unfoldable pub nonce_for : ℕ → List ℕ
  nonce_for counter = replicate 16 0 ++ be_bytes 8 counter

  unfoldable pub salsa_box : ℕ → ℕ → ℕ
  salsa_box their_pub our_priv = b.precompute their_pub our_priv

  unfoldable pub box_seal : ℕ → ℕ → List ℕ → List ℕ
  unfolding nonce_for
  box_seal shared counter msg = b.encrypt_box shared (nonce_for counter) msg

  unfoldable pub box_open : ℕ → ℕ → List ℕ → Option (List ℕ)
  unfolding nonce_for
  box_open shared counter sealed = b.decrypt_box shared (nonce_for counter) sealed

  pub open-seal :
      (shared counter : ℕ) (msg : List ℕ)
      → box_open shared counter (box_seal shared counter msg) ≡ some msg
  unfolding box_open box_seal
  open-seal shared counter msg = b.decrypt-encrypt_box shared (nonce_for counter) msg

  pub length-seal :
      (shared counter : ℕ) (msg : List ℕ) → length (box_seal shared counter msg) ≡ 16 + length msg
  unfolding box_seal
  length-seal shared counter msg = b.length-encrypt_box shared (nonce_for counter) msg

  -- The key that a seed has for boxes is that of its signing key: the birational map.
  abbrev pub SameCurve : Ed25519 → Type 0
  SameCurve c =
      (seed : ℕ) → b.montgomery (c.public_key seed) ≡ some (b.box_public (ed_to_curve_priv seed))

abbrev pub toy_decrypt : ℕ → List ℕ → List ℕ → Option (List ℕ)
toy_decrypt shared nonce [] = none
toy_decrypt shared nonce (tag ∷ rest) = if tag == shared then some (drop 15 rest) else none

pub toy_comm : (x y : ℕ) → (x % 2 ^ 256 + y) % 2 ^ 256 ≡ (y % 2 ^ 256 + x) % 2 ^ 256
toy_comm x y = omega arith

pub toy_open :
    (shared : ℕ) (msg : List ℕ) → toy_decrypt shared [] (replicate 16 shared ++ msg) ≡ some msg
toy_open shared msg = ap (λ (b : Bool). if b then some msg else none) (==_refl shared)

pub toy_length : (shared : ℕ) (msg : List ℕ) → length (replicate 16 shared ++ msg) ≡ 16 + length msg
toy_length shared msg = omega arith

pub toy_bound : (secret : ℕ) → secret % 2 ^ 256 < 2 ^ 256
toy_bound secret = omega arith

-- A scheme with these laws, for the examples.
abbrev pub toy_boxes : Boxes
toy_boxes = record {
  sha512 = λ bytes. replicate 64 0;
  montgomery = λ key. some 0;
  box_public = λ secret. secret % 2 ^ 256;
  precompute = λ public secret. (public + secret) % 2 ^ 256;
  encrypt_box = λ shared nonce msg. replicate 16 shared ++ msg;
  decrypt_box = toy_decrypt;
  precompute_comm = λ x y. toy_comm x y;
  decrypt-encrypt_box = λ shared nonce msg. toy_open shared msg;
  length-encrypt_box = λ shared nonce msg. toy_length shared msg;
  box_public-lt = λ secret. toy_bound secret;
}
