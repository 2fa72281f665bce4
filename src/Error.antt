-- ===== src/Error.antt =====
-- The error types of core/src/error.rs and src/error.rs, and the results of fallible code.
use roots.Prelude.{ℕ, ◌≡◌, ◌⊎◌, inl, inr, refl, Bool, true, false, Option, none, some, List}

-- core/src/error.rs
pub data CoreError : Type 0 where
  invalid_preamble invalid_length bad_password : CoreError
  bad_version : ℕ → ℕ → CoreError
  self_dial key_not_allowed pinned_mismatch password_too_long : CoreError
  unrecognised_schema pinned_key_invalid priority_invalid password_invalid : CoreError
  max_backoff_invalid bad_subprotocol timeout no_link : CoreError

unfoldable pub core_is_link : CoreError → Bool
core_is_link no_link = true
core_is_link _ = false

-- src/error.rs; the payload of `Io` is the system's, and nothing here looks into it.
pub data Error : Type 0 where
  core : CoreError → Error
  io : Error
  bad_uri bad_max_backoff : List ℕ → Error

unfoldable pub as_core : Error → Option CoreError
as_core (core e) = some e
as_core _ = none

unfoldable pub is_link : Error → Bool
unfolding core_is_link as_core
is_link io = true
is_link (bad_uri u) = false
is_link (bad_max_backoff m) = false
is_link other = elim (as_core other) [ some c ↦ core_is_link c | none ↦ false ]

pub data Result {ℓ} (A : Type ℓ) : Type ℓ where
  err : Error → Result A
  ok : A → Result A

pub Result-cases {ℓ} :
    {A : Type ℓ} (r : Result A) → ((a : A) × (r ≡ ok a)) ⊎ ((x : Error) × (r ≡ err x))
Result-cases (ok a) = inl (a, refl)
Result-cases (err x) = inr (x, refl)

-- `opt.ok_or(e)`
abbrev pub ok_or {ℓ} : {A : Type ℓ} → Option A → Error → Result A
ok_or none e = err e
ok_or (some a) e = ok a

-- The question mark.
infixl 5 ◌>>=◌
abbrev pub ◌>>=◌ {ℓ κ} : {A : Type ℓ} {B : Type κ} → Result A → (A → Result B) → Result B
err e >>= next = err e
ok a >>= next = next a

-- `return Err(e)` unless the test holds
abbrev pub guard : Bool → Error → Result (Unit {0})
guard false e = err e
guard true e = ok tt

infixl 5 ◌>>◌
abbrev pub ◌>>◌ {ℓ} : {B : Type ℓ} → Result (Unit {0}) → Result B → Result B
check >> next = check >>= λ _. next

abbrev pub length_error : Error
length_error = core invalid_length

-- Exactly two errors end a link: a system failure, and the core's missing link.
pub is_link-cases : (e : Error) → is_link e ≡ true → (e ≡ io) ⊎ (e ≡ core no_link)
unfolding is_link
is_link-cases io h = inl refl
is_link-cases (core no_link) h = inr refl
is_link-cases (core e) h = cc
is_link-cases e h = cc
