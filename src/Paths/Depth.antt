-- ===== src/Paths/Depth.antt =====
-- The lookups, notifies and sends call each other, but not without end.
use roots.Prelude.{
  ℕ, suc, ◌≡◌, inl, inr, refl, sym, ap, ◌∙◌, Bool, true, false, Option, none, some, List, ◌==◌,
  ==_refl, if◌then◌else◌, Bool-cases, Option-cases,
}
use roots.Prelude.Map.{Map, lookup, lookup-insert}
use roots.Prelude.Words.{max64}
use roots.Error.{ok}
use roots.Crypto.{Ed25519}
use roots.Table.{Key}
use roots.Links.{Streams}
use roots.Wire.Lookup.{PathNotify}
use roots.Route.{root_path, path_or_empty, greedy_next}
use roots.Paths.{Net, PathState, PathEntry, learnt, usable_path, rumor_key}
use roots.Paths.Handlers.{
  Outcome, take_pending, pathfinder_send, route_traffic, flush, handle_notify_once, handle_notify,
}
use roots.Paths.Accept.{accept-cases, taken}

module _ {S : Type 0} (key_of : Key ℕ) (io_of : Streams S) (c : Ed25519)
    (seed now unix_now : ℕ) where
  abbrev Again : Type 0
  Again = Net S → PathNotify → Outcome key_of io_of c seed now unix_now

  abbrev sent_on : Again → Net S → ℕ → List ℕ → Outcome key_of io_of c seed now unix_now
  sent_on again = pathfinder_send key_of io_of c seed now unix_now again

  -- With a path that can be used, nothing is looked up.
  send_known :
      (again : Again) (n : Net S) (dest : ℕ) (payload path : List ℕ)
      → usable_path (lookup dest n.paths.entries) ≡ some path
      → sent_on again n dest payload
        ≡ route_traffic key_of io_of c seed now unix_now n (record {
          path = path;
          from = path_or_empty (root_path n.tree.infos (c.public_key seed));
          source = c.public_key seed;
          dest = dest;
          watermark = max64;
          payload = payload;
        })
  unfolding pathfinder_send
  send_known again n dest payload path e = rw (pathfinder_send, e) refl

  taken_off : ℕ → PathState → PathState × Option (List ℕ × Bool)
  unfolding take_pending
  taken_off source p = take_pending key_of io_of c seed now unix_now source p

  entries-take_pending : (source : ℕ) (p : PathState) → (taken_off source p).0.entries ≡ p.entries
  unfolding taken_off take_pending
  entries-take_pending source p = elim (Option-cases (lookup (rumor_key source) p.rumors)) [
    | inl e ↦ rw (take_pending, e) refl
    | inr (r, e) ↦ elim (Option-cases r.pending) [
      | inl f ↦ rw (take_pending, e, f) refl
      | inr (payload, f) ↦ rw (take_pending, e, f) refl
    ]
  ]

  module _ (session_send : Net S → ℕ → List ℕ → Outcome key_of io_of c seed now unix_now) where
    abbrev flushed : Again → Net S → ℕ → Outcome key_of io_of c seed now unix_now
    flushed again = flush key_of io_of c seed now unix_now session_send again

    module _ (again : Again) (n : Net S) (source : ℕ) where
      abbrev without_held : Net S
      without_held = record n { paths = (taken_off source n.paths).0 }

      flush_none :
          (taken_off source n.paths).1 ≡ none → flushed again n source ≡ (without_held, ok tt)
      unfolding flush taken_off
      flush_none e = rw (flush, e) refl

      flush_app :
          (payload : List ℕ)
          → (taken_off source n.paths).1 ≡ some (payload, true)
          → flushed again n source ≡ session_send without_held source payload
      unfolding flush taken_off
      flush_app payload e = rw (flush, e) refl

      flush_sealed :
          (payload : List ℕ)
          → (taken_off source n.paths).1 ≡ some (payload, false)
          → flushed again n source ≡ sent_on again without_held source payload
      unfolding flush taken_off
      flush_sealed payload e = rw (flush, e) refl

    flush_same :
        (again again' : Again) (n : Net S) (source : ℕ) (path : List ℕ)
        → usable_path (lookup source n.paths.entries) ≡ some path
        → flushed again n source ≡ flushed again' n source
    flush_same again again' n source path known =
        let here : usable_path (lookup source (taken_off source n.paths).0.entries) ≡ some path =
          ap (λ (m : Map PathEntry). usable_path (lookup source m))
            (entries-take_pending source n.paths)
          ∙ known in
        let n' = without_held again n source in
        elim (Option-cases (taken_off source n.paths).1) [
          | inl e ↦ flush_none again n source e ∙ sym (flush_none again' n source e)
          | inr ((payload, true), e) ↦
              flush_app again n source payload e ∙ sym (flush_app again' n source payload e)
          | inr ((payload, false), e) ↦
              flush_sealed again n source payload e
              ∙ send_known again n' source payload path here
              ∙ sym (send_known again' n' source payload path here)
              ∙ sym (flush_sealed again' n source payload e)
        ]

    abbrev once : Again → Net S → PathNotify → Outcome key_of io_of c seed now unix_now
    once again = handle_notify_once key_of io_of c seed now unix_now session_send again

    module _ (n : Net S) (notify : PathNotify) where
      abbrev hop : Option ℕ
      hop = (greedy_next (c.public_key seed) n.tree n.links notify.path notify.watermark).0

      learnt_path :
          usable_path (lookup notify.source (taken c now n.paths notify).entries)
          ≡ some notify.info.path
      unfolding usable_path learnt
      learnt_path = ap usable_path (
          lookup-insert notify.source notify.source (learnt c now notify) n.paths.entries
          ∙ ap
              (λ (b : Bool).
                if b then some (learnt c now notify) else lookup notify.source n.paths.entries)
              (==_refl notify.source))

      once_same : (again again' : Again) → once again n notify ≡ once again' n notify
      unfolding handle_notify_once
      once_same again again' = elim (Option-cases hop) [
        | inr (next, e) ↦ rw (handle_notify_once, e) refl
        | inl e ↦ elim (Bool-cases (notify.dest == c.public_key seed)) [
          | inr other ↦ rw (handle_notify_once, e, other) refl
          | inl mine ↦ elim (accept-cases c now n.paths notify) [
            | inl refused ↦ rw (handle_notify_once, e, mine, refused) refl
            | inr (accepted, shown) ↦
                rw (handle_notify_once, e, mine, accepted)
                  (flush_same again again' (record n { paths = taken c now n.paths notify })
                    notify.source notify.info.path learnt_path)
          ]
        ]
      ]

    -- Leaving the session layer aside, which is given, a notify leads to no other notify at the same
    -- node: one round of fuel gives the same outcome as any greater number.
    pub handle_notify_enough :
        (more : ℕ) (n : Net S) (notify : PathNotify)
        → handle_notify key_of io_of c seed now unix_now session_send (suc more) n notify
          ≡ handle_notify key_of io_of c seed now unix_now session_send 1 n notify
    unfolding handle_notify
    handle_notify_enough more n notify =
        once_same n notify (handle_notify key_of io_of c seed now unix_now session_send more)
          (handle_notify key_of io_of c seed now unix_now session_send 0)
