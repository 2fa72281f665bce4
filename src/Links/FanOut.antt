-- ===== src/Links/FanOut.antt =====
-- The hard send to every link of a key, which announces and requests go out by.
use roots.Prelude.{
  ℕ, ◌≡◌, inl, inr, refl, sym, ap, ◌∙◌, subst, Bool, true, false, some, List, [], ◌∷◌, arith, ◌==◌,
  ==_iff, if◌then◌else◌, Bool-cases, List-cases,
}
use roots.Prelude.Sets.{contains, distinct, keep}
use roots.Error.{Result, ok, err, core, no_link, Result-cases}
use roots.Wire.Frame.{FrameType}
use roots.Links.{
  Streams, LinkEntry, LinkSet, ids, find_entry, write_frame, send, hard, write, write_each,
  links_to, write_peer,
}
use roots.Links.Sends.{entry_ids, after_send, Delivered, send_cases}

module _ {S : Type 0} (io_of : Streams S) (ftype : FrameType) (payload : List ℕ) where
  -- The link took the frame, between two states of the set.
  abbrev pub Took : LinkSet S → LinkSet S → ℕ → Type 0
  Took s s' id =
      (e : LinkEntry S) × (stream : S) × (find_entry id s.entries ≡ some e)
      × (write_frame io_of e.stream ftype payload ≡ ok stream)
      × (find_entry id s'.entries ≡ some (after_send e stream payload))

  -- Each link of the list took the frame and the others are as they were.
  abbrev pub Fanned : LinkSet S → List ℕ → LinkSet S → Type 0
  Fanned s targets s' =
      (id : ℕ)
      → (contains id targets ≡ true → Took s s' id)
        × (contains id targets ≡ false → find_entry id s'.entries ≡ find_entry id s.entries)

  hard-true : (r : Result Bool) → hard r ≡ ok tt → r ≡ ok true
  unfolding hard
  hard-true (ok true) h = refl
  hard-true (ok false) h = cc
  hard-true (err x) h = cc

  write_done :
      (s : LinkSet S) (now target : ℕ)
      → distinct (ids s) ≡ true
      → (write io_of s now target ftype payload).1 ≡ ok tt
      → (e : LinkEntry S) × (stream : S) × (find_entry target s.entries ≡ some e)
        × (write_frame io_of e.stream ftype payload ≡ ok stream)
        × Delivered s target e stream payload (send io_of s now target ftype payload)
  unfolding write
  write_done s now target apart done =
      let sent : (send io_of s now target ftype payload).1 ≡ ok true = hard-true _ done in
      elim (send_cases io_of s now target ftype payload apart) [
        | inl (gone, e) ↦ cc (sent, ap (λ r. r.1) e)
        | inr (e, there, inl (stream, taken, delivered)) ↦ (e, stream, there, taken, delivered)
        | inr (e, there, inr (x, refused, retired)) ↦ cc (sent, retired.0)
      ]

  write_kept :
      (s : LinkSet S) (now target : ℕ)
      → (write io_of s now target ftype payload).0 ≡ (send io_of s now target ftype payload).0
  unfolding write
  write_kept s now target = refl

  write_each_done :
      (s : LinkSet S) (now id : ℕ) (rest : List ℕ)
      → (write_each io_of s now (id ∷ rest) ftype payload).1 ≡ ok tt
      → ((write io_of s now id ftype payload).1 ≡ ok tt)
        × (write_each io_of s now (id ∷ rest) ftype payload
            ≡ write_each io_of (send io_of s now id ftype payload).0 now rest ftype payload)
  unfolding write_each
  write_each_done s now id rest h = elim (Result-cases (write io_of s now id ftype payload).1) [
    | inl (u, e) ↦ (
      e,
      rw (e, write_each)
          (ap (λ s'. write_each io_of s' now rest ftype payload) (write_kept s now id)),
    )
    | inr (x, e) ↦
        let stopped : (write_each io_of s now (id ∷ rest) ftype payload).1 ≡ err x =
          rw (e, write_each) refl in
        cc (h, stopped)
  ]

  Fanned-step :
      (s s1 s' : LinkSet S) (t : ℕ) (rest : List ℕ) (e : LinkEntry S) (stream : S)
      → find_entry t s.entries ≡ some e
      → write_frame io_of e.stream ftype payload ≡ ok stream
      → ((id : ℕ)
          → find_entry id s1.entries
            ≡ (if t == id then some (after_send e stream payload) else find_entry id s.entries))
      → contains t rest ≡ false
      → Fanned s1 rest s'
      → Fanned s (t ∷ rest) s'
  unfolding contains
  Fanned-step s s1 s' t rest e stream there taken first once later id =
      elim (Bool-cases (t == id)) [
        | inl here ↦
            let same : t ≡ id = (==_iff t id).0 here in
            let stays : find_entry id s'.entries ≡ find_entry id s1.entries =
              (later id).1 (subst (λ (x : ℕ). contains x rest ≡ false) same once) in
            let now_here : find_entry id s1.entries ≡ some (after_send e stream payload) =
              first id ∙ rw here refl in
            (
              λ _. (
                e,
                stream,
                subst (λ (x : ℕ). find_entry x s.entries ≡ some e) same there,
                taken,
                stays ∙ now_here,
              ),
              λ away. cc (here, away),
            )
        | inr other ↦
            let kept : find_entry id s1.entries ≡ find_entry id s.entries =
              first id ∙ rw other refl in
            (
              λ more.
                  let (e', stream', there', taken', at_end) =
                    (later id).0 (ground (arith, other, more)) in
                  (e', stream', sym kept ∙ there', taken', at_end),
              λ none_more. (later id).1 (ground (arith, other, none_more)) ∙ kept,
            )
      ]

  fresh_first :
      (t : ℕ) (rest : List ℕ)
      → distinct (t ∷ rest) ≡ true
      → (contains t rest ≡ false) × (distinct rest ≡ true)
  unfolding distinct
  fresh_first t rest h = ground arith

  -- A fan-out that succeeds reaches every link it was meant for, and no other.
  pub write_each_lem :
      (s : LinkSet S) (now : ℕ) (targets : List ℕ)
      → distinct (ids s) ≡ true
      → distinct targets ≡ true
      → (write_each io_of s now targets ftype payload).1 ≡ ok tt
      → Fanned s targets (write_each io_of s now targets ftype payload).0
  write_each_lem s now [] apart once done id =
      (λ e. cc (e, nothing), λ e. unfold write_each in refl)
    where
      nothing : contains id [] ≡ false
      nothing = unfold contains in refl
  write_each_lem s now (t ∷ rest) apart once done id =
      let (here, onward) = write_each_done s now t rest done in
      let (e, stream, there, taken, delivered) = write_done s now t apart here in
      let s1 : LinkSet S = (send io_of s now t ftype payload).0 in
      let fresh : (contains t rest ≡ false) × (distinct rest ≡ true) = fresh_first t rest once in
      subst (λ r. Fanned s (t ∷ rest) r.0) (sym onward)
        (Fanned-step s s1 (write_each io_of s1 now rest ftype payload).0 t rest e stream there taken
          delivered.2 fresh.0
          (write_each_lem s1 now rest (cc (delivered.1, apart)) fresh.1 (cc (onward, done))))
        id

contains-map_keep :
    {S : Type 0} (peer id : ℕ) (es : List (LinkEntry S))
    → contains id (entry_ids es) ≡ false
    → contains id (entry_ids (keep (λ e. e.peer == peer) es)) ≡ false
unfolding contains keep
contains-map_keep peer id [] h = refl
contains-map_keep peer id (e ∷ es) h = ground (arith, contains-map_keep peer id es)

distinct-map_keep :
    {S : Type 0} (peer : ℕ) (es : List (LinkEntry S))
    → distinct (entry_ids es) ≡ true
    → distinct (entry_ids (keep (λ e. e.peer == peer) es)) ≡ true
unfolding distinct keep
distinct-map_keep peer [] h = refl
distinct-map_keep peer (e ∷ es) h =
    ground (arith, contains-map_keep peer e.id es, distinct-map_keep peer es)

module _ {S : Type 0} (io_of : Streams S) (s : LinkSet S) (now peer : ℕ) (ftype : FrameType)
    (payload : List ℕ) where
  write_peer_each :
      (write_peer io_of s now peer ftype payload).1 ≡ ok tt
      → write_peer io_of s now peer ftype payload
        ≡ write_each io_of s now (links_to s peer) ftype payload
  unfolding write_peer
  write_peer_each done = elim (List-cases (links_to s peer)) [
    | inl alone ↦
        let refused : (write_peer io_of s now peer ftype payload).1 ≡ err (core no_link) =
          rw (alone, write_peer) refl in
        cc (done, refused)
    | inr (id, rest, some_links) ↦ rw (some_links, write_peer) refl
  ]

  -- When a send to a key succeeds in a set whose link ids are distinct, every link to the key has
  -- taken the frame, and the links to other keys are as they were.
  pub write_peer_lem :
      distinct (ids s) ≡ true
      → (write_peer io_of s now peer ftype payload).1 ≡ ok tt
      → Fanned io_of ftype payload s (links_to s peer) (write_peer io_of s now peer ftype payload).0
  unfolding ids links_to
  write_peer_lem apart done =
      let same : write_peer io_of s now peer ftype payload
          ≡ write_each io_of s now (links_to s peer) ftype payload =
        write_peer_each done in
      subst (λ r. Fanned io_of ftype payload s (links_to s peer) r.0) (sym same)
        (write_each_lem io_of ftype payload s now (links_to s peer) apart
          (distinct-map_keep peer s.entries apart) (cc (same, done)))
