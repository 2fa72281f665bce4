-- ===== src/Links/Sends.antt =====
-- What a send does to the set, link by link.
use roots.Prelude.{
  ℕ, ◌≡◌, ◌⊎◌, inl, inr, refl, sym, subst, ap, ◌∙◌, ◌++◌, Bool, true, false, none, some, List, [],
  ◌∷◌, arith, ◌==◌, if◌then◌else◌, length, map, Option-cases,
}
use roots.Prelude.Map.{insert}
use roots.Prelude.Words.{add64}
use roots.Prelude.Sets.{distinct-append_one, contains, distinct}
use roots.Error.{Error, Result, ok, err, Result-cases}
use roots.Wire.Uvarint.{wire_len}
use roots.Wire.Frame.{FrameType}
use roots.Links.{
  Streams, LinkEntry, LinkSet, ids, find_entry, put_entry, drop_entry, add_link, write_frame,
  send_on, send,
}

module _ {S : Type 0} where
  abbrev pub entry_ids : List (LinkEntry S) → List ℕ
  entry_ids es = map (λ e. e.id) es

  pub find_entry-id :
      (id : ℕ) (es : List (LinkEntry S)) (e : LinkEntry S) → find_entry id es ≡ some e → e.id ≡ id
  unfolding find_entry
  find_entry-id id [] e h = cc
  find_entry-id id (x ∷ es) e h = grind (arith, find_entry-id id es e)

  -- An entry put back is found under its id; the others are found as they were.
  pub find_entry-put_entry :
      (id : ℕ) (new : LinkEntry S) (es : List (LinkEntry S)) (old : LinkEntry S)
      → find_entry new.id es ≡ some old
      → find_entry id (put_entry new es) ≡ (if new.id == id then some new else find_entry id es)
  unfolding find_entry put_entry
  find_entry-put_entry id new [] old h = cc
  find_entry-put_entry id new (e ∷ es) old h = grind (arith, find_entry-put_entry id new es old)

  find_entry_fresh :
      (id : ℕ) (es : List (LinkEntry S))
      → contains id (entry_ids es) ≡ false
      → find_entry id es ≡ none
  unfolding find_entry contains
  find_entry_fresh id [] h = refl
  find_entry_fresh id (e ∷ es) h = ground (arith, find_entry_fresh id es)

  pub find_entry-drop_entry :
      (id gone : ℕ) (es : List (LinkEntry S))
      → distinct (entry_ids es) ≡ true
      → find_entry id (drop_entry gone es) ≡ (if gone == id then none else find_entry id es)
  unfolding find_entry drop_entry distinct
  find_entry-drop_entry id gone [] h = ground arith
  find_entry-drop_entry id gone (e ∷ es) h =
      grind (arith, find_entry_fresh id es, find_entry-drop_entry id gone es)

  pub ids-put_entry :
      (new : LinkEntry S) (es : List (LinkEntry S)) → entry_ids (put_entry new es) ≡ entry_ids es
  unfolding put_entry
  ids-put_entry new [] = refl
  ids-put_entry new (e ∷ es) = grind (arith, ids-put_entry new es)

-- What is left of an entry after its stream took the frame.
unfoldable pub after_send : {S : Type 0} → LinkEntry S → S → List ℕ → LinkEntry S
after_send e stream payload = record e {
  stream = stream;
  tx = add64 e.tx (wire_len (length payload));
}

module _ {S : Type 0} (s : LinkSet S) (target : ℕ) where
  -- The frame is on the link's stream, its bytes are counted, and no other link has changed.
  abbrev pub Delivered : LinkEntry S → S → List ℕ → LinkSet S × Result Bool → Type 0
  Delivered e stream payload r =
      (r.1 ≡ ok true)
      × (ids r.0 ≡ ids s)
      × ((id : ℕ)
          → find_entry id r.0.entries ≡ (
              if target == id then some (after_send e stream payload) else find_entry id s.entries))

  -- The link is retired, and no other has changed.
  abbrev pub Retired : Error → LinkSet S × Result Bool → Type 0
  Retired x r =
      (r.1 ≡ err x)
      × ((id : ℕ)
          → find_entry id r.0.entries ≡ (if target == id then none else find_entry id s.entries))

module _ {S : Type 0} (io_of : Streams S) (s : LinkSet S) (now target : ℕ) (ftype : FrameType)
    (payload : List ℕ) where
  -- The three ways a send can go.
  abbrev pub SendCases : LinkSet S × Result Bool → Type 0
  SendCases r =
      ((find_entry target s.entries ≡ none) × (r ≡ (s, ok false)))
      ⊎ ((e : LinkEntry S) × (find_entry target s.entries ≡ some e)
          × (((stream : S) × (write_frame io_of e.stream ftype payload ≡ ok stream)
                × Delivered s target e stream payload r)
              ⊎ ((x : Error) × (write_frame io_of e.stream ftype payload ≡ err x)
                  × Retired s target x r)))

  send_on_taken :
      (e : LinkEntry S) (stream : S)
      → write_frame io_of e.stream ftype payload ≡ ok stream
      → send_on io_of s now e ftype payload ≡ (
        record s {
          entries = put_entry (after_send e stream payload) s.entries;
          last_write = insert e.id now s.last_write;
        },
        ok true,
      )
  unfolding after_send send_on put_entry insert
  send_on_taken e stream taken = rw (taken, send_on) refl

  send_on_refused :
      (e : LinkEntry S) (x : Error)
      → write_frame io_of e.stream ftype payload ≡ err x
      → send_on io_of s now e ftype payload
        ≡ (record s { entries = drop_entry e.id s.entries }, err x)
  unfolding send_on drop_entry
  send_on_refused e x refused = rw (refused, send_on) refl

  put_back :
      (e : LinkEntry S) (stream : S) (id : ℕ)
      → e.id ≡ target
      → find_entry target s.entries ≡ some e
      → find_entry id (put_entry (after_send e stream payload) s.entries)
        ≡ (if target == id then some (after_send e stream payload) else find_entry id s.entries)
  unfolding after_send
  put_back e stream id same there =
      grind (arith, find_entry-put_entry id (after_send e stream payload) s.entries e)

  send_on_cases :
      (e : LinkEntry S)
      → distinct (ids s) ≡ true
      → find_entry target s.entries ≡ some e
      → ((stream : S) × (write_frame io_of e.stream ftype payload ≡ ok stream)
          × Delivered s target e stream payload (send_on io_of s now e ftype payload))
        ⊎ ((x : Error) × (write_frame io_of e.stream ftype payload ≡ err x)
            × Retired s target x (send_on io_of s now e ftype payload))
  unfolding ids
  send_on_cases e apart there =
      let same : e.id ≡ target = find_entry-id target s.entries e there in
      elim (Result-cases (write_frame io_of e.stream ftype payload)) [
        | inl (stream, taken) ↦ inl (
          stream,
          taken,
          subst (Delivered s target e stream payload) (sym (send_on_taken e stream taken)) (
            refl,
            unfold after_send in ids-put_entry (after_send e stream payload) s.entries,
            λ id. put_back e stream id same there,
          ),
        )
        | inr (x, refused) ↦ inr (
          x,
          refused,
          subst (Retired s target x) (sym (send_on_refused e x refused))
              (refl, λ id. grind (arith, find_entry-drop_entry id e.id s.entries apart)),
        )
      ]

  -- A send in a set whose ids are distinct finds no link and changes nothing, or its link takes the
  -- frame, or the link refuses it and is retired; the other links stay as they were.
  pub send_cases : distinct (ids s) ≡ true → SendCases (send io_of s now target ftype payload)
  unfolding send
  send_cases apart = elim (Option-cases (find_entry target s.entries)) [
    | inl gone ↦ inl (gone, rw (gone, send) refl)
    | inr (e, there) ↦
        let sent : send io_of s now target ftype payload ≡ send_on io_of s now e ftype payload =
          rw (there, send) refl in
        subst SendCases (sym sent) (inr (e, there, send_on_cases e apart there))
  ]

entry_ids-append :
    {S : Type 0} (es : List (LinkEntry S)) (e : LinkEntry S)
    → entry_ids (es ++ e ∷ []) ≡ entry_ids es ++ e.id ∷ []
entry_ids-append [] e = refl
entry_ids-append (x ∷ es) e = ap (◌∷◌ x.id) (entry_ids-append es e)

-- A link with a fresh id leaves the ids distinct.
pub add_link-distinct :
    {S : Type 0} (s : LinkSet S) (now peer id : ℕ) (inbound : Bool) (stream : S)
    → distinct (ids s) ≡ true
    → contains id (ids s) ≡ false
    → distinct (ids (add_link s now peer id inbound stream)) ≡ true
unfolding ids add_link
add_link-distinct s now peer id inbound stream apart fresh =
    ap distinct (entry_ids-append s.entries _) ∙ distinct-append_one (ids s) id apart fresh
