-- ===== src/Proto/Answers.antt =====
-- The keys that fit into an answer of src/proto.rs.
use roots.Prelude.{
  ℕ, zero, suc, ◌+◌, ◌*◌, List, [], ◌∷◌, ◌++◌, length, length-append, take, append_assoc,
  append-nil, ◌≡◌, refl, sym, arith,
}
use roots.Prelude.Bytes.{be_bytes, length-be_bytes}
use roots.Proto.{concat_loop, concat_keys}

-- The keys one after the other, each in its 32 bytes.
unfoldable pub key_bytes : List ℕ → List ℕ
key_bytes [] = []
key_bytes (k ∷ ks) = be_bytes 32 k ++ key_bytes ks

-- The room that the next key takes.
room-be_bytes :
    (n k : ℕ) (out : List ℕ)
    → length out + 32 * suc n ≡ 65442
    → length (out ++ be_bytes 32 k) + 32 * n ≡ 65442
room-be_bytes n k out room = omega (arith, length-append out (be_bytes 32 k), length-be_bytes 32 k)

-- The loop takes keys until 2045 are there.
concat_loop-take :
    (n : ℕ) (out ks : List ℕ)
    → length out + 32 * n ≡ 65442
    → concat_loop out ks ≡ out ++ key_bytes (take n ks)
unfolding concat_loop key_bytes
concat_loop-take zero out [] room = sym (append-nil out)
concat_loop-take (suc n) out [] room = sym (append-nil out)
concat_loop-take zero out (k ∷ ks) room = ground (arith, append-nil out)
concat_loop-take (suc n) out (k ∷ ks) room = ground (
  arith,
  concat_loop-take n (out ++ be_bytes 32 k) ks (room-be_bytes n k out room),
  append_assoc out (be_bytes 32 k) (key_bytes (take n ks)),
)

-- An answer is its two leading bytes and the first 2045 keys, or all of them if there are fewer.
pub concat_keys_lem :
    (dispatch subtype : ℕ) (ks : List ℕ)
    → concat_keys dispatch subtype ks ≡ dispatch ∷ subtype ∷ key_bytes (take 2045 ks)
unfolding concat_keys
concat_keys_lem dispatch subtype ks = concat_loop-take 2045 (dispatch ∷ subtype ∷ []) ks refl
