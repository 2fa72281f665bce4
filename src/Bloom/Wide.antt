-- ===== src/Bloom/Wide.antt =====
-- Filters of full width: whatever is decoded is one, and the maps of a router keep to them.
use roots.Prelude.{
  ℕ, zero, suc, ◌+◌, ◌≡◌, ◌∙◌, ap, sym, refl, subst, inl, inr, Bool, true, false, none, some, List,
  ◌∷◌, length, take, drop, ◌==◌, ltb, if◌then◌else◌, Bool-cases, Option-cases,
}
use roots.Prelude.Map.{Map, lookup, insert, lookup-insert}
use roots.Prelude.Bytes.{of_be}
use roots.Error.{Result, ok, err, length_error, ◌>>=◌}
use roots.Bloom.Filter.{BloomFilter, empty, decode_exact, raised, take_words}
use roots.Prelude.Words.{max64}
use roots.Bloom.Chunks.{with_word}
use roots.Bloom.Membership.{IsFilter}
use roots.Bloom.Routing.{or_default}

-- What holds of a result if there is one.
abbrev IfOk {ℓ κ} : {A : Type ℓ} → (A → Type κ) → Result A → Type κ
IfOk P (ok a) = P a
IfOk P (err x) = Unit

IfOk-elim {ℓ κ} :
    {A : Type ℓ} (P : A → Type κ) (b : Bool) (x y : Result A)
    → IfOk P x
    → IfOk P y
    → IfOk P (elim b [ true ↦ x | false ↦ y ])
IfOk-elim P true x y h k = h
IfOk-elim P false x y h k = k

IfOk-bind {ℓ κ ι} :
    {A : Type ℓ} {B : Type ι} (P : A → Type κ) (Q : B → Type κ) (r : Result A) (next : A → Result B)
    → IfOk P r
    → ((a : A) → P a → IfOk Q (next a))
    → IfOk Q (r >>= next)
IfOk-bind P Q (ok a) next h k = k a h
IfOk-bind P Q (err x) next h k = tt

take_words-length :
    (flags0 flags1 : List ℕ) (idx n : ℕ) (rest : List ℕ)
    → IfOk (λ got. length got.0 ≡ n) (take_words flags0 flags1 idx n rest)
unfolding take_words
take_words-length flags0 flags1 idx zero rest = refl
take_words-length flags0 flags1 idx (suc n) rest =
    let more : (w : ℕ) (left : List ℕ)
        → IfOk Long (with_word w (take_words flags0 flags1 (idx + 1) n left)) =
      λ w left.
        IfOk-bind (λ got. length got.0 ≡ n) Long (take_words flags0 flags1 (idx + 1) n left)
          (λ got. ok (w ∷ got.0, got.1)) (take_words-length flags0 flags1 (idx + 1) n left)
          (λ got e. ap suc e) in
    let data_word : Result (List ℕ × List ℕ) = elim (ltb (length rest) 8) [
      | true ↦ err length_error
      | false ↦ with_word (of_be (take 8 rest)) (take_words flags0 flags1 (idx + 1) n (drop 8 rest))
    ] in
    let zeros = with_word 0 (take_words flags0 flags1 (idx + 1) n rest) in
    let ones = with_word max64 (take_words flags0 flags1 (idx + 1) n rest) in
    IfOk-elim Long (raised flags0 idx)
      (elim (raised flags1 idx) [ true ↦ err length_error | false ↦ zeros ])
      (elim (raised flags1 idx) [ true ↦ ones | false ↦ data_word ])
      (IfOk-elim Long (raised flags1 idx) (err length_error) zeros tt (more 0 rest))
      (IfOk-elim Long (raised flags1 idx) ones data_word (more max64 rest) (
        IfOk-elim Long (ltb (length rest) 8) (err length_error) _ tt
          (more (of_be (take 8 rest)) (drop 8 rest))))
  where
    Long : List ℕ × List ℕ → Type 0
    Long got = length got.0 ≡ suc n

IfOk-if {ℓ κ} :
    {A : Type ℓ} (P : A → Type κ) (b : Bool) (x y : Result A)
    → IfOk P x
    → IfOk P y
    → IfOk P (if b then x else y)
IfOk-if P true x y h k = h
IfOk-if P false x y h k = k

decode_exact-wide : (buf : List ℕ) → IfOk IsFilter (decode_exact buf)
unfolding decode_exact
decode_exact-wide buf =
    let rest = drop 16 buf in
    let flags0 = take 16 buf in
    let flags1 = take 16 rest in
    IfOk-if IsFilter (ltb (length buf) 32) (err length_error) _ tt (
      IfOk-bind (λ got. length got.0 ≡ 128) IsFilter (take_words flags0 flags1 0 128 (drop 16 rest))
        _ (take_words-length flags0 flags1 0 128 (drop 16 rest))
        (λ got e.
          IfOk-if IsFilter (ltb 0 (length got.1)) (err length_error) (ok (record { words = got.0 }))
            tt e))

-- Whatever is decoded is of full width.
pub decode_exact-IsFilter : (buf : List ℕ) (f : BloomFilter) → decode_exact buf ≡ ok f → IsFilter f
decode_exact-IsFilter buf f e = subst (IfOk IsFilter) e (decode_exact-wide buf)

-- Every filter of the map is of full width.
abbrev pub AllWide : Map BloomFilter → Type 0
AllWide m = (k : ℕ) (f : BloomFilter) → lookup k m ≡ some f → IsFilter f

pub empty-IsFilter : IsFilter empty
empty-IsFilter = refl

pub insert-AllWide :
    (k : ℕ) (f : BloomFilter) (m : Map BloomFilter)
    → AllWide m
    → IsFilter f
    → AllWide (insert k f m)
insert-AllWide k f m h new j g e = elim (Bool-cases (k == j)) [
  | inl at ↦
      subst IsFilter
        (some_inj
          (sym (ap (λ b. if b then some f else lookup j m) at) ∙ sym (lookup-insert k j f m) ∙ e))
        new
  | inr at ↦
      h j g (sym (ap (λ b. if b then some f else lookup j m) at) ∙ sym (lookup-insert k j f m) ∙ e)
]
  where
    some_inj : {x y : BloomFilter} → some x ≡ some y → x ≡ y
    some_inj e = cc

fresh_default :
    (k : ℕ) (m : Map BloomFilter) → lookup k m ≡ none → or_default k m ≡ insert k empty m
unfolding or_default
fresh_default k m e = rw (or_default, e) refl

known_default :
    (k : ℕ) (m : Map BloomFilter) (f : BloomFilter) → lookup k m ≡ some f → or_default k m ≡ m
unfolding or_default
known_default k m f e = rw (or_default, e) refl

pub or_default-AllWide : (k : ℕ) (m : Map BloomFilter) → AllWide m → AllWide (or_default k m)
or_default-AllWide k m h = elim (Option-cases (lookup k m)) [
  | inl e ↦ subst AllWide (sym (fresh_default k m e)) (insert-AllWide k empty m h empty-IsFilter)
  | inr (f, e) ↦ subst AllWide (sym (known_default k m f e)) h
]
