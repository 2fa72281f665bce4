-- ===== src/Paths/Accept.antt =====
-- What a router learns from a notify.
use roots.Prelude.{
  ℕ, ◌<◌, ◌≡◌, ◌⊎◌, inl, inr, refl, sym, ap, ◌∙◌, Bool, true, false, ◌||◌, none, some, arith, leb,
  Bool-cases, Option-cases,
}
use roots.Prelude.Map.{lookup, insert}
use roots.Crypto.{Ed25519}
use roots.Wire.Lookup.{PathNotify, check_notify}
use roots.Bloom.Routing.{words_eq}
use roots.Paths.{PathEntry, RumorEntry, PathState, learnt, accept, rumor_key}

module _ (c : Ed25519) (now : ℕ) (p : PathState) (n : PathNotify) where
  -- The entries with the path of the source.
  abbrev pub taken : PathState
  taken = record p { entries = insert n.source (learnt c now n) p.entries }

  -- What a notify that is taken in shows.
  pub record Shown : Type 0 where
    pub signed : check_notify c n ≡ true
    pub newer : (old : PathEntry) → lookup n.source p.entries ≡ some old → old.seq < n.info.seq
    pub awaited :
        lookup n.source p.entries ≡ none
        → (r : RumorEntry) × (lookup (rumor_key n.source) p.rumors ≡ some r)

  module _ (old : PathEntry) (known : lookup n.source p.entries ≡ some old) where
    abbrev is_stale : Bool
    is_stale = leb n.info.seq old.seq || words_eq n.info.path old.path

    refuse_stale : is_stale ≡ true → accept c now p n ≡ none
    unfolding accept
    refuse_stale e = rw (accept, known, e) refl

    refuse_forged : is_stale ≡ false → check_notify c n ≡ false → accept c now p n ≡ none
    unfolding accept
    refuse_forged e f = rw (accept, known, e, f) refl

    take_newer : is_stale ≡ false → check_notify c n ≡ true → accept c now p n ≡ some taken
    unfolding accept
    take_newer e f = rw (accept, known, e, f) refl

    shown_newer : is_stale ≡ false → check_notify c n ≡ true → Shown
    shown_newer e f = record {
      signed = f;
      newer = λ other at. newer_than other (some_entry (sym known ∙ at));
      awaited = λ none_known. absurd (no_entry (sym none_known ∙ known));
    }
      where
        some_entry : {x y : PathEntry} → some x ≡ some y → x ≡ y
        some_entry h = cc

        no_entry : {x : PathEntry} → none ≡ some x → ⊥
        no_entry h = cc

        newer_than : (other : PathEntry) → old ≡ other → other.seq < n.info.seq
        newer_than other same = ground (arith, ap (λ (x : PathEntry). x.seq) same, e)

    accept_old : (accept c now p n ≡ none) ⊎ ((accept c now p n ≡ some taken) × Shown)
    accept_old = elim (Bool-cases is_stale) [
      | inl stale ↦ inl (refuse_stale stale)
      | inr fresh ↦ elim (Bool-cases (check_notify c n)) [
        | inr forged ↦ inl (refuse_forged fresh forged)
        | inl good ↦ inr (take_newer fresh good, shown_newer fresh good)
      ]
    ]

  module _ (unknown : lookup n.source p.entries ≡ none) where
    refuse_unasked : lookup (rumor_key n.source) p.rumors ≡ none → accept c now p n ≡ none
    unfolding accept
    refuse_unasked e = rw (accept, unknown, e) refl

    module _ (r : RumorEntry) (asked : lookup (rumor_key n.source) p.rumors ≡ some r) where
      refuse_unsigned : check_notify c n ≡ false → accept c now p n ≡ none
      unfolding accept
      refuse_unsigned f = rw (accept, unknown, asked, f) refl

      take_first : check_notify c n ≡ true → accept c now p n ≡ some taken
      unfolding accept
      take_first f = rw (accept, unknown, asked, f) refl

      shown_first : check_notify c n ≡ true → Shown
      shown_first f = record {
        signed = f;
        newer = λ other at. absurd (no_entry (sym unknown ∙ at));
        awaited = λ none_known. (r, asked);
      }
        where
          no_entry : {x : PathEntry} → none ≡ some x → ⊥
          no_entry h = cc

    accept_new : (accept c now p n ≡ none) ⊎ ((accept c now p n ≡ some taken) × Shown)
    accept_new = elim (Option-cases (lookup (rumor_key n.source) p.rumors)) [
      | inl unasked ↦ inl (refuse_unasked unasked)
      | inr (r, asked) ↦ elim (Bool-cases (check_notify c n)) [
        | inr forged ↦ inl (refuse_unsigned r asked forged)
        | inl good ↦ inr (take_first r asked good, shown_first r asked good)
      ]
    ]

  -- A notify is refused, or it is taken in and its path replaces the entry of its source; and it is
  -- taken in only where its signature is the source's, its number is above that of a path that is
  -- known already, and, where none is known, a lookup is out whose key transforms to the source's.
  pub accept-cases : (accept c now p n ≡ none) ⊎ ((accept c now p n ≡ some taken) × Shown)
  accept-cases = elim (Option-cases (lookup n.source p.entries)) [
    | inl unknown ↦ accept_new unknown
    | inr (old, known) ↦ accept_old old known
  ]
