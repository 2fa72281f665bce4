-- ===== src/Tree/State/Adopt.antt =====
-- What `update` leaves in the tables.
use roots.Prelude.{
  ℕ, ◌≡◌, inl, inr, refl, ap, true, false, not, ◌||◌, Option, none, some, arith, ◌==◌, ==_iff,
  if◌then◌else◌, Bool-cases,
}
use roots.Prelude.Map.{lookup, lookup-insert}
use roots.Wire.Signed.{Announce}
use roots.Tree.State.{Info, TreeState, info_of, supersedes, is_news, adopt, update}
use roots.Tree.State.Precedence.{supersedes_asymm, supersedes_trans}

-- The better of an announce and what was known, the known one if neither supersedes the other.
unfoldable pub best : Announce → Option Info → Info
best ann none = info_of ann
best ann (some known) = if supersedes (info_of ann) known then info_of ann else known

pub best_news : (ann : Announce) (o : Option Info) → is_news ann o ≡ true → best ann o ≡ info_of ann
unfolding is_news best
best_news ann none h = refl
best_news ann (some known) h = rw h refl

best_old : (ann : Announce) (o : Option Info) → is_news ann o ≡ false → o ≡ some (best ann o)
unfolding is_news best
best_old ann none h = cc
best_old ann (some known) h = rw h refl

module _ (pubkey now : ℕ) (t : TreeState) (ann : Announce) where
  pub update_news :
      is_news ann (lookup ann.key t.infos) ≡ true
      → update pubkey now t ann ≡ (adopt pubkey now t ann, true)
  unfolding update
  update_news h = rw h refl

  pub update_old :
      is_news ann (lookup ann.key t.infos) ≡ false → update pubkey now t ann ≡ (t, false)
  unfolding update
  update_old h = rw h refl

  adopt_infos :
      (k : ℕ)
      → lookup k (adopt pubkey now t ann).infos
        ≡ (if ann.key == k then some (info_of ann) else lookup k t.infos)
  unfolding adopt
  adopt_infos k = lookup-insert ann.key k (info_of ann) t.infos

  at_key : (k : ℕ) → (ann.key == k) ≡ true → lookup ann.key t.infos ≡ lookup k t.infos
  at_key k h = ap (λ (x : ℕ). lookup x t.infos) ((==_iff ann.key k).0 h)

  -- After an update each key has the info it had, but the announced key the better of the two.
  pub update_infos :
      (k : ℕ)
      → lookup k (update pubkey now t ann).0.infos
        ≡ (if ann.key == k then some (best ann (lookup k t.infos)) else lookup k t.infos)
  update_infos k = elim (Bool-cases (is_news ann (lookup ann.key t.infos))) [
    | inl news ↦
        rw (update_news news)
          (grind (arith, adopt_infos k, at_key k, best_news ann (lookup ann.key t.infos) news))
    | inr old ↦
        rw (update_old old) (grind (arith, at_key k, best_old ann (lookup ann.key t.infos) old))
  ]

best_order :
    (a b : Announce) (o : Option Info)
    → supersedes (info_of a) (info_of b) ≡ true
    → best b (some (best a o)) ≡ best a (some (best b o))
unfolding best
best_order a b none h = rw (h, supersedes_asymm (info_of a) (info_of b) h) refl
best_order a b (some known) h =
    let x : Info = info_of a in
    let y : Info = info_of b in
    let below : supersedes y x ≡ false = supersedes_asymm x y h in
    elim (Bool-cases (supersedes y known)) [
      | inl better ↦
          let above : supersedes x known ≡ true = supersedes_trans x y known h better in
          rw (above, better, below, h) refl
      | inr worse ↦ elim (Bool-cases (supersedes x known)) [
        | inl above ↦ rw (above, worse, below, above) refl
        | inr old ↦ rw (old, worse, old) refl
      ]
    ]

-- Two announces for different keys, or for one key of which the first supersedes the second, may
-- arrive in either order: what is known of every key is the same afterwards.
pub update_order :
    (pubkey now : ℕ) (t : TreeState) (a b : Announce) (k : ℕ)
    → (not (a.key == b.key) || supersedes (info_of a) (info_of b)) ≡ true
    → lookup k (update pubkey now (update pubkey now t a).0 b).0.infos
      ≡ lookup k (update pubkey now (update pubkey now t b).0 a).0.infos
update_order pubkey now t a b k h = grind (
  arith,
  update_infos pubkey now t a k,
  update_infos pubkey now t b k,
  update_infos pubkey now (update pubkey now t a).0 b k,
  update_infos pubkey now (update pubkey now t b).0 a k,
  best_order a b (lookup k t.infos),
)
