-- ===== src/Paths.antt =====
-- src/pathfind.rs, with `handle_inbound_traffic` of src/traffic.rs: the paths that a router has learnt,
-- the lookups it has out, and what it does with lookups, notifies, broken paths and traffic. The
-- session layer above is a parameter. A panic is the error `io`.
pub mod Accept
pub mod Handlers
pub mod Depth
use roots.Prelude.{
  ℕ, zero, suc, ◌+◌, ◌-◌, ◌*◌, ◌^◌, ◌≡◌, Bool, true, false, not, ◌&&◌, ◌||◌, Option, none, some,
  List, [], ◌∷◌, length, ltb, leb, ◌==◌, if◌then◌else◌,
}
use roots.Prelude.Map.{Map, lookup, insert}
use roots.Prelude.Bytes.{of_be}
use roots.Prelude.Words.{max64}
use roots.Error.{Result, ok, err, io}
use roots.Crypto.{Ed25519}
use roots.Table.{Key}
use roots.Links.{LinkSet, Streams}
use roots.Tree.State.{TreeState, seconds}
use roots.Wire.Frame.{FrameType, traffic, path_lookup, path_notify, path_broken}
use roots.Wire.Lookup.{
  PathLookup, NotifyInfo, PathNotify, PathBroken, encode_lookup, encode_notify, encode_broken,
  sign_info, check_notify,
}
use roots.Wire.Traffic.{Traffic, encode}
use roots.Bloom.Routing.{BloomState, xkey, words_eq, write_via_link, multicast}
use roots.Route.{root_path, path_or_empty, greedy_next}

pub record PathEntry : Type 0 where
  pub path : List ℕ
  pub seq : ℕ
  pub deadline : ℕ
  pub broken : Bool

pub record RumorEntry : Type 0 where
  pub dest : ℕ
  pub send_at : Option ℕ
  pub deadline : ℕ
  pub pending : Option (List ℕ)
  pub pending_is_app : Bool

abbrev pub path_timeout : ℕ
path_timeout = seconds 60

abbrev pub path_throttle : ℕ
path_throttle = seconds 1

-- Rumors have transformed keys, as the numbers that their bytes spell.
pub record PathState : Type 0 where
  pub entries : Map PathEntry
  pub rumors : Map RumorEntry
  pub notify : NotifyInfo

-- `PathState::default`
abbrev pub no_paths : PathState
no_paths = record { entries = []; rumors = []; notify = record { seq = 0; path = []; sig = 0 } }

-- The parts of a router that path finding uses.
pub record Net (S : Type 0) : Type 0 where
  pub tree : TreeState
  pub blooms : BloomState
  pub links : LinkSet S
  pub paths : PathState

unfoldable pub rumor_key : ℕ → ℕ
unfolding xkey
rumor_key dest = of_be (xkey dest)

-- `send_at.map(|t| now.duration_since(t) < PATH_THROTTLE).unwrap_or(false)`
unfoldable pub is_throttled : ℕ → Option RumorEntry → Bool
is_throttled now none = false
is_throttled now (some r) = elim r.send_at [ none ↦ false | some t ↦ ltb (now - t) path_throttle ]

-- `or_insert(RumorEntry { .. })`
unfoldable pub rumor_or_new : ℕ → ℕ → Option RumorEntry → RumorEntry
rumor_or_new now dest (some r) = r
rumor_or_new now dest none = record {
  dest = dest;
  send_at = none;
  deadline = now + path_timeout;
  pending = none;
  pending_is_app = false;
}

-- `entries.get(&dest).filter(|e| !e.broken).map(|e| e.path.clone())`
unfoldable pub usable_path : Option PathEntry → Option (List ℕ)
usable_path none = none
usable_path (some e) = if not e.broken then some e.path else none

-- A notify for this node taken in: the entries with the path of its source, `none` where it is refused.
module _ (c : Ed25519) (now : ℕ) where
  unfoldable pub learnt : PathNotify → PathEntry
  learnt n = record {
    path = n.info.path;
    seq = n.info.seq;
    deadline = now + path_timeout;
    broken = false;
  }

  unfoldable pub accept : PathState → PathNotify → Option PathState
  unfolding learnt rumor_key words_eq
  accept p n =
      let taken = record p { entries = insert n.source (learnt n) p.entries } in
      elim (lookup n.source p.entries) [
        | some old ↦
            if leb n.info.seq old.seq || words_eq n.info.path old.path
            then none
            else if not (check_notify c n)
            then none
            else some taken
        | none ↦ elim (lookup (rumor_key n.source) p.rumors) [
          | none ↦ none
          | some r ↦ if not (check_notify c n) then none else some taken
        ]
      ]
