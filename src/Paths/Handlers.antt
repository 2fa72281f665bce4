-- ===== src/Paths/Handlers.antt =====
-- The handlers of lookups, notifies, broken paths and traffic, in src/pathfind.rs and src/traffic.rs.
use roots.Prelude.{
  ℕ, zero, suc, ◌+◌, Bool, true, false, not, ◌||◌, Option, none, some, List, [], ◌==◌,
  if◌then◌else◌,
}
use roots.Prelude.Map.{lookup, insert}
use roots.Prelude.Words.{max64}
use roots.Error.{Result, ok, err, io}
use roots.Crypto.{Ed25519}
use roots.Table.{Key}
use roots.Links.{Streams}
use roots.Wire.Frame.{FrameType, traffic, path_lookup, path_notify, path_broken}
use roots.Wire.Lookup.{
  PathLookup, NotifyInfo, PathNotify, PathBroken, encode_lookup, encode_notify, encode_broken,
  sign_info,
}
use roots.Wire.Traffic.{Traffic, encode}
use roots.Bloom.Routing.{xkey, words_eq, write_via_link, multicast}
use roots.Route.{root_path, path_or_empty, greedy_next}
use roots.Paths.{
  PathState, path_timeout, Net, rumor_key, is_throttled, rumor_or_new, usable_path, accept,
}

module _ {S : Type 0} (key_of : Key ℕ) (io_of : Streams S) (c : Ed25519)
    (seed now unix_now : ℕ) where
  abbrev pub Outcome : Type 0
  Outcome = Net S × Result (Unit {0})

  abbrev pub pubkey : ℕ
  pubkey = c.public_key seed

  abbrev pub greedy : Net S → List ℕ → ℕ → Option ℕ × ℕ
  greedy n path watermark = greedy_next pubkey n.tree n.links path watermark

  -- `self.write_via(links, next, ..)`
  unfoldable pub write_next : Net S → ℕ → FrameType → List ℕ → Outcome
  unfolding write_via_link
  write_next n next ftype buf =
      let step = write_via_link key_of io_of now n.blooms n.links next ftype buf in
      (record n { blooms = step.0; links = step.1 }, step.2)

  -- Traffic of this node, one hop on.
  unfoldable pub route_traffic : Net S → Traffic → Outcome
  unfolding write_next
  route_traffic n tr =
      let hop = greedy n tr.path tr.watermark in
      elim hop.0 [
        | none ↦ (n, ok tt)
        | some next ↦ elim (encode (record tr { watermark = hop.1 })) [
          | err x ↦ (n, err x)
          | ok buf ↦ write_next n next traffic buf
        ]
      ]

  -- The notify that answers a lookup, signed again where the coordinates or the second changed.
  unfoldable pub own_notify : Net S → NotifyInfo
  unfolding words_eq
  own_notify n =
      let coords = path_or_empty (root_path n.tree.infos pubkey) in
      let known = n.paths.notify in
      if not (unix_now == known.seq) || not (words_eq coords known.path)
      then sign_info c (record { seq = unix_now; path = coords; sig = 0 }) seed
      else known

  -- `again` handles a notify: the lookups, the notifies and the sends call each other.
  module _ (again : Net S → PathNotify → Outcome) where
    unfoldable pub answer_lookup : Net S → PathLookup → Outcome
    unfolding own_notify words_eq
    answer_lookup n lookup =
        let info = own_notify n in
        let n' = record n { paths = record n.paths { notify = info } } in
        if not (words_eq (xkey lookup.dest) (xkey pubkey))
        then (n, ok tt)
        else again n' (record {
          path = lookup.from;
          watermark = max64;
          source = pubkey;
          dest = lookup.source;
          info = info;
        })

    unfoldable pub handle_lookup : Net S → ℕ → PathLookup → Outcome
    unfolding answer_lookup
    handle_lookup n from lookup =
        elim (multicast key_of io_of now n.tree.links from lookup.dest path_lookup
          (encode_lookup lookup []) n.blooms n.links) [
            | none ↦ (n, err io)
            | some step ↦
                let n' = record n { blooms = step.0; links = step.1 } in
                elim step.2 [ err x ↦ (n', err x) | ok u ↦ answer_lookup n' lookup ]
          ]

    unfoldable pub send_lookup : Net S → ℕ → Outcome
    unfolding handle_lookup
    send_lookup n dest = handle_lookup n pubkey (record {
      source = pubkey;
      dest = dest;
      from = path_or_empty (root_path n.tree.infos pubkey);
    })

    unfoldable pub rumor_lookup : Net S → ℕ → Outcome
    unfolding send_lookup is_throttled rumor_or_new
    rumor_lookup n dest =
        let x = rumor_key dest in
        let known = lookup x n.paths.rumors in
        let e = record (rumor_or_new now dest known) {
          send_at = some now;
          deadline = now + path_timeout;
        } in
        let n' = record n { paths = record n.paths { rumors = insert x e n.paths.rumors } } in
        if is_throttled now known then (n, ok tt) else send_lookup n' dest

    unfoldable pub hold_for_lookup : Net S → ℕ → List ℕ → Outcome
    unfolding rumor_lookup is_throttled rumor_or_new
    hold_for_lookup n dest payload =
        let x = rumor_key dest in
        let known = lookup x n.paths.rumors in
        let e = record (rumor_or_new now dest known) {
          pending = some payload;
          pending_is_app = true;
        } in
        let n' = record n { paths = record n.paths { rumors = insert x e n.paths.rumors } } in
        if is_throttled now known then (n', ok tt) else rumor_lookup n' dest

    -- `if let Some(r) = rumors.get_mut(&x) { r.pending = Some(payload); }`
    unfoldable pub hold_pending : ℕ → List ℕ → PathState → PathState
    hold_pending dest payload p = elim (lookup (rumor_key dest) p.rumors) [
      | none ↦ p
      | some r ↦ record p {
        rumors = insert (rumor_key dest) (record r { pending = some payload }) p.rumors;
      }
    ]

    unfoldable pub pathfinder_send : Net S → ℕ → List ℕ → Outcome
    unfolding route_traffic rumor_lookup hold_pending usable_path
    pathfinder_send n dest payload = elim (usable_path (lookup dest n.paths.entries)) [
      | some path ↦ route_traffic n (record {
        path = path;
        from = path_or_empty (root_path n.tree.infos pubkey);
        source = pubkey;
        dest = dest;
        watermark = max64;
        payload = payload;
      })
      | none ↦
          let step = rumor_lookup n dest in
          elim step.1 [
            | err x ↦ (step.0, err x)
            | ok u ↦ (record step.0 { paths = hold_pending dest payload step.0.paths }, ok tt)
          ]
    ]

  -- `r.pending.take()`
  unfoldable pub take_pending : ℕ → PathState → PathState × Option (List ℕ × Bool)
  take_pending source p = elim (lookup (rumor_key source) p.rumors) [
    | none ↦ (p, none)
    | some r ↦ elim r.pending [
      | none ↦ (p, none)
      | some payload ↦ (
        record p { rumors = insert (rumor_key source) (record r { pending = none }) p.rumors },
        some (payload, r.pending_is_app),
      )
    ]
  ]

  -- `session_send` is the session layer's.
  module _ (session_send : Net S → ℕ → List ℕ → Outcome) where
    -- What was held for the source of an accepted notify goes out.
    unfoldable pub flush : (Net S → PathNotify → Outcome) → Net S → ℕ → Outcome
    unfolding take_pending pathfinder_send
    flush again n source =
        let held = take_pending source n.paths in
        let n' = record n { paths = held.0 } in
        elim held.1 [
          | none ↦ (n', ok tt)
          | some (payload, is_app) ↦ elim is_app [
            | true ↦ session_send n' source payload
            | false ↦ pathfinder_send again n' source payload
          ]
        ]

    unfoldable pub handle_notify_once :
        (Net S → PathNotify → Outcome) → Net S → PathNotify → Outcome
    unfolding write_next accept flush
    handle_notify_once again n notify =
        let hop = greedy n notify.path notify.watermark in
        elim hop.0 [
          | some next ↦
              write_next n next path_notify (encode_notify (record notify { watermark = hop.1 }) [])
          | none ↦
              if not (notify.dest == pubkey)
              then (n, ok tt)
              else elim (accept c now n.paths notify) [
                | none ↦ (n, ok tt)
                | some paths ↦ flush again (record n { paths = paths }) notify.source
              ]
        ]

    -- On fuel for the notifies that a notify leads to.
    unfoldable pub handle_notify : ℕ → Net S → PathNotify → Outcome
    unfolding handle_notify_once
    handle_notify zero n notify = (n, err io)
    handle_notify (suc fuel) n notify = handle_notify_once (handle_notify fuel) n notify

    -- The entry is marked and looked up again.
    unfoldable pub handle_broken : Net S → PathBroken → Outcome
    unfolding write_next rumor_lookup handle_notify
    handle_broken n broken =
        let hop = greedy n broken.path broken.watermark in
        elim hop.0 [
          | some next ↦
              write_next n next path_broken (encode_broken (record broken { watermark = hop.1 }) [])
          | none ↦
              if not (broken.source == pubkey)
              then (n, ok tt)
              else elim (lookup broken.dest n.paths.entries) [
                | none ↦ (n, ok tt)
                | some e ↦
                    rumor_lookup (handle_notify 1)
                      (record n {
                        paths = record n.paths {
                          entries = insert broken.dest (record e { broken = true }) n.paths.entries;
                        };
                      })
                      broken.dest
              ]
        ]

    -- `if let Some(e) = entries.get_mut(&source) && !e.broken { e.deadline = now + PATH_TIMEOUT; }`
    unfoldable pub refresh_path : ℕ → PathState → PathState
    refresh_path source p = elim (lookup source p.entries) [
      | none ↦ p
      | some e ↦
          if not e.broken
          then record p {
            entries = insert source (record e { deadline = now + path_timeout }) p.entries;
          }
          else p
    ]

    -- `handle_session_bytes` is the session layer's.
    unfoldable pub handle_inbound_traffic :
        (Net S → ℕ → List ℕ → Outcome) → Net S → Traffic → Outcome
    unfolding write_next refresh_path handle_broken
    handle_inbound_traffic handle_session_bytes n tr =
        let hop = greedy n tr.path tr.watermark in
        elim hop.0 [
          | some next ↦ elim (encode (record tr { watermark = hop.1 })) [
            | err x ↦ (n, err x)
            | ok buf ↦ write_next n next traffic buf
          ]
          | none ↦
              if tr.dest == pubkey
              then handle_session_bytes (record n { paths = refresh_path tr.source n.paths })
                  tr.source tr.payload
              else handle_broken n
                  (record { path = tr.from; watermark = max64; source = tr.source; dest = tr.dest })
        ]
