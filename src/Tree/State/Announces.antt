-- ===== src/Tree/State/Announces.antt =====
-- What a router does with an announce, and what it answers.
use roots.Prelude.{
  ℕ, ◌≡◌, ◌↔◌, inl, inr, refl, sym, ap, ◌∙◌, Bool, true, false, Option, none, some, List, [], arith,
  ◌==◌, ==_refl, if◌then◌else◌, Bool-cases,
}
use roots.Prelude.Map.{Map, lookup, insert, lookup-insert}
use roots.Prelude.Sets.{contains, set_insert, contains-set_insert}
use roots.Prelude.Words.{add64}
use roots.Wire.Signed.{Announce}
use roots.Tree.State.{
  Info, TreeState, info_of, info_announce, info_eq, is_news, adopt, update, mark_sent, better_known,
  handle_announce, res_eq, req_eq,
}
use roots.Tree.State.Adopt.{best, best_news, update_infos, update_news, update_old}

info_eq_sound : (a b : Info) → info_eq a b ≡ true → a ≡ b
unfolding info_eq res_eq req_eq
info_eq_sound a b h =
    let same : (a.parent ≡ b.parent)
        × (a.res.req.seq ≡ b.res.req.seq)
        × (a.res.req.nonce ≡ b.res.req.nonce)
        × (a.res.port ≡ b.res.port)
        × (a.res.psig ≡ b.res.psig)
        × (a.sig ≡ b.sig) =
      ground (arith, h) in
    λ i. record {
      parent = same.0 i;
      res = record {
        req = record { seq = same.1 i; nonce = same.2 i };
        port = same.3 i;
        psig = same.4 i;
      };
      sig = same.5 i;
    }

info_eq_refl : (a : Info) → info_eq a a ≡ true
unfolding info_eq res_eq req_eq
info_eq_refl a = ground arith

some-inj : {A : Type 0} (a b : A) → some a ≡ some b → a ≡ b
some-inj a b e = cc e

better_known-none :
    (ann : Announce) (o : Option Info)
    → is_news ann o ≡ false
    → (better_known ann o ≡ none) ↔ (o ≡ some (info_of ann))
unfolding is_news better_known
better_known-none ann none h = cc h
better_known-none ann (some known) h = elim (Bool-cases (info_eq known (info_of ann))) [
  | inl same ↦ rw same (λ _. ap some (info_eq_sound known (info_of ann) same), λ _. refl)
  | inr apart ↦ rw apart (
    λ e. cc e,
    λ e.
        let same : known ≡ info_of ann = some-inj known (info_of ann) e in
        cc (apart, ap (λ x. info_eq x (info_of ann)) same, info_eq_refl (info_of ann)),
  )
]

better_known-some :
    (ann : Announce) (o : Option Info) (r : Announce)
    → better_known ann o ≡ some r
    → (r.key ≡ ann.key) × (o ≡ some (info_of r))
unfolding better_known info_announce
better_known-some ann none r e = cc e
better_known-some ann (some known) r e = elim (Bool-cases (info_eq known (info_of ann))) [
  | inl same ↦ let silent : better_known ann (some known) ≡ none = rw same refl in cc (silent, e)
  | inr apart ↦
      let given : better_known ann (some known) ≡ some (info_announce known ann.key) =
        rw apart refl in
      let same : info_announce known ann.key ≡ r =
        some-inj (info_announce known ann.key) r (sym given ∙ e) in
      (ap (λ a. a.key) (sym same), ap (λ a. some (info_of a)) same)
]

-- Whether the sender is marked as knowing the key.
unfoldable pub told : ℕ → ℕ → Map (List ℕ) → Bool
told from key m = elim (lookup from m) [ none ↦ false | some keys ↦ contains key keys ]

told_by :
    (from key : ℕ) (m : Map (List ℕ)) (keys : List ℕ)
    → lookup from m ≡ some keys
    → told from key m ≡ contains key keys
unfolding told
told_by from key m keys e = rw (e, told) refl

told-mark_sent : (from key : ℕ) (m : Map (List ℕ)) → told from key (mark_sent from key m) ≡ true
unfolding mark_sent
told-mark_sent from key m =
    let before : List ℕ = elim (lookup from m) [ none ↦ [] | some keys ↦ keys ] in
    let there : lookup from (insert from (set_insert key before) m) ≡ some (set_insert key before) =
      lookup-insert from from (set_insert key before) m ∙ rw (==_refl from) refl in
    told_by from key (insert from (set_insert key before) m) (set_insert key before) there
    ∙ contains-set_insert key key before
    ∙ rw (==_refl key) refl

module _ (pubkey now : ℕ) (t : TreeState) (from : ℕ) (ann : Announce) where
  abbrev counted : TreeState
  counted = record t { announces_recv = add64 t.announces_recv 1 }

  -- The tables and the reply after an announce.
  abbrev pub Handled : TreeState × Option Announce → Type 0
  Handled r =
      ((k : ℕ)
        → lookup k r.0.infos
          ≡ (if ann.key == k then some (best ann (lookup k t.infos)) else lookup k t.infos))
      × (told from ann.key r.0.sent ≡ true)
      × ((r.1 ≡ none) ↔ (lookup ann.key r.0.infos ≡ some (info_of ann)))
      × ((reply : Announce)
          → r.1 ≡ some reply
          → (reply.key ≡ ann.key) × (lookup ann.key r.0.infos ≡ some (info_of reply)))

  handle_tables :
      let u = update pubkey now counted ann in
      let r = handle_announce pubkey now t from ann in
      (r.0.infos ≡ u.0.infos)
      × (r.0.sent ≡ mark_sent from ann.key u.0.sent)
      × (r.1 ≡ (if u.1 then none else better_known ann (lookup ann.key u.0.infos)))
  unfolding handle_announce
  handle_tables = elim (Bool-cases (update pubkey now counted ann).1) [
    | inl adopted ↦ rw adopted (refl, refl, refl)
    | inr kept ↦ rw kept (refl, refl, refl)
  ]

  -- The reply is absent exactly if the table holds the announce, and is what the table holds if not.
  reply_lem :
      let u = update pubkey now counted ann in
      let reply = if u.1 then none else better_known ann (lookup ann.key u.0.infos) in
      ((reply ≡ none) ↔ (lookup ann.key u.0.infos ≡ some (info_of ann)))
      × ((r : Announce)
          → reply ≡ some r
          → (r.key ≡ ann.key) × (lookup ann.key u.0.infos ≡ some (info_of r)))
  reply_lem = elim (Bool-cases (is_news ann (lookup ann.key t.infos))) [
    | inl news ↦
        let held : lookup ann.key (update pubkey now counted ann).0.infos ≡ some (info_of ann) =
          update_infos pubkey now counted ann ann.key
          ∙ rw (==_refl ann.key, best_news ann (lookup ann.key t.infos) news) refl in
        let adopted : lookup ann.key (adopt pubkey now counted ann).infos ≡ some (info_of ann) =
          ap (λ u. lookup ann.key u.0.infos) (sym (update_news pubkey now counted ann news))
          ∙ held in
        rw (update_news pubkey now counted ann news) ((λ _. adopted, λ _. refl), λ r e. cc e)
    | inr old ↦ rw (update_old pubkey now counted ann old) (
      better_known-none ann (lookup ann.key t.infos) old,
      better_known-some ann (lookup ann.key t.infos),
    )
  ]

  -- After an announce the table holds, for its key, the better of it and what was known, and the sender
  -- counts as told. The sender gets a reply exactly if the table does not hold the announce, and then
  -- the reply is what the table holds.
  pub handle_announce_lem : Handled (handle_announce pubkey now t from ann)
  handle_announce_lem =
      let (infos, sent, reply) = handle_tables in
      rw (infos, sent, reply)
        (
          update_infos pubkey now counted ann,
          told-mark_sent from ann.key (update pubkey now counted ann).0.sent,
          reply_lem.0,
          reply_lem.1,
        )
