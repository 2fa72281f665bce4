-- ===== src/Tree/State.antt =====
-- `TreeState`, and the operations that take nothing but it: `update`, `expire`, `handle_announce`.
pub mod Precedence
pub mod Adopt
pub mod Expiry
pub mod Announces
use roots.Prelude.{
  ℕ, ◌+◌, ◌*◌, ◌≡◌, Bool, true, false, not, ◌&&◌, ◌||◌, Option, none, some, List, [], ◌∷◌, ltb, leb,
  ◌==◌, if◌then◌else◌,
}
use roots.Prelude.Map.{Map, lookup, insert, remove, keys}
use roots.Prelude.Sets.{set_insert, set_remove}
use roots.Prelude.Words.{add64}
use roots.Wire.Signed.{SigReq, SigRes, Announce}

-- src/peer.rs
pub data PeerKind : Type 0 where
  go : PeerKind
  roots_peer : ℕ → PeerKind

pub record PeerState : Type 0 where
  pub port : ℕ
  pub open_req : SigReq

pub record LinkState : Type 0 where
  pub of_peer : ℕ
  pub responded : Bool
  pub lag : ℕ
  pub sent_at : Option ℕ
  pub prio : ℕ
  pub order : ℕ
  pub kind : PeerKind
  pub srrt : Option ℕ

pub record Info : Type 0 where
  pub parent : ℕ
  pub res : SigRes
  pub sig : ℕ

pub record TreeState : Type 0 where
  pub peers : Map PeerState
  pub links : Map LinkState
  pub infos : Map Info
  pub deadlines : Map ℕ
  pub responses : Map SigRes
  pub sent : Map (List ℕ)
  pub next_port : ℕ
  pub refresh : Bool
  pub do_root1 : Bool
  pub do_root2 : Bool
  pub self_refresh_at : Option ℕ
  pub peer_order : ℕ
  pub announces_sent : ℕ
  pub announces_recv : ℕ

abbrev pub seconds : ℕ → ℕ
seconds n = n * 1000000000

abbrev pub tree_refresh : ℕ
tree_refresh = seconds 240

abbrev pub tree_timeout : ℕ
tree_timeout = seconds 300

-- `Info::announce`
unfoldable pub info_announce : Info → ℕ → Announce
info_announce i key = record { key = key; parent = i.parent; res = i.res; sig = i.sig }

abbrev pub info_of : Announce → Info
info_of a = record { parent = a.parent; res = a.res; sig = a.sig }

-- `TreeState::default`
abbrev pub new_tree : TreeState
new_tree = record {
  peers = [];
  links = [];
  infos = [];
  deadlines = [];
  responses = [];
  sent = [];
  next_port = 1;
  refresh = false;
  do_root1 = false;
  do_root2 = true;
  self_refresh_at = none;
  peer_order = 0;
  announces_sent = 0;
  announces_recv = 0;
}

unfoldable pub req_eq : SigReq → SigReq → Bool
req_eq a b = a.seq == b.seq && a.nonce == b.nonce

res_eq : SigRes → SigRes → Bool
unfolding req_eq
res_eq a b = req_eq a.req b.req && (a.port == b.port && a.psig == b.psig)

-- `PartialEq` of `Info`
unfoldable pub info_eq : Info → Info → Bool
unfolding res_eq
info_eq a b = a.parent == b.parent && (res_eq a.res b.res && a.sig == b.sig)

-- `fresh > known`: a higher seq, then a lower parent, then a lower nonce.
unfoldable pub supersedes : Info → Info → Bool
supersedes fresh known =
    ltb known.res.req.seq fresh.res.req.seq
    || (known.res.req.seq == fresh.res.req.seq
        && (ltb fresh.parent known.parent
            || (fresh.parent == known.parent && ltb fresh.res.req.nonce known.res.req.nonce)))

-- `for sent in self.tree.sent.values_mut() { sent.remove(key); }`
unfoldable pub forget_sent : ℕ → Map (List ℕ) → Map (List ℕ)
forget_sent key [] = []
forget_sent key ((peer, told) ∷ m) = (peer, set_remove key told) ∷ forget_sent key m

-- The announce is new, or supersedes what is known.
unfoldable pub is_news : Announce → Option Info → Bool
unfolding supersedes
is_news ann none = true
is_news ann (some known) = supersedes (info_of ann) known

-- The state once the announce is adopted.
unfoldable pub adopt : ℕ → ℕ → TreeState → Announce → TreeState
adopt pubkey now t ann = record t {
  sent = forget_sent ann.key t.sent;
  deadlines =
      insert ann.key (now + (if ann.key == pubkey then tree_refresh else tree_timeout)) t.deadlines;
  infos = insert ann.key (info_of ann) t.infos;
}

unfoldable pub update : ℕ → ℕ → TreeState → Announce → TreeState × Bool
unfolding is_news adopt
update pubkey now t ann =
    if is_news ann (lookup ann.key t.infos) then (adopt pubkey now t ann, true) else (t, false)

-- The keys whose deadline has passed.
unfoldable pub overdue : ℕ → Map ℕ → List ℕ
overdue now [] = []
overdue now ((k, d) ∷ m) = let rest = overdue now m in if leb d now then k ∷ rest else rest

-- `for k in dead { .. }`
unfoldable pub expire_all : List ℕ → TreeState → TreeState
expire_all [] t = t
expire_all (k ∷ dead) t = expire_all dead (record t {
  deadlines = remove k t.deadlines;
  infos = remove k t.infos;
  sent = forget_sent k t.sent;
})

unfoldable pub reached : ℕ → Option ℕ → Bool
reached now none = false
reached now (some at) = leb at now

unfoldable pub expire : ℕ → TreeState → TreeState
unfolding overdue expire_all reached
expire now t =
    let t' = expire_all (overdue now t.deadlines) t in
    if reached now t'.self_refresh_at
    then record t' { refresh = true; self_refresh_at = some (now + tree_refresh) }
    else t'

-- `self.tree.sent.entry(from).or_default().insert(key)`
unfoldable pub mark_sent : ℕ → ℕ → Map (List ℕ) → Map (List ℕ)
mark_sent from key m =
    insert from (set_insert key (elim (lookup from m) [ none ↦ [] | some told ↦ told ])) m

-- `self.tree.infos.get(&ann.key).filter(|info| info differs).map(|info| info.announce(ann.key))`
unfoldable pub better_known : Announce → Option Info → Option Announce
unfolding info_eq info_announce
better_known ann none = none
better_known ann (some info) =
    if not (info_eq info (info_of ann)) then some (info_announce info ann.key) else none

-- The state and the reply to the sender.
unfoldable pub handle_announce : ℕ → ℕ → TreeState → ℕ → Announce → TreeState × Option Announce
unfolding update mark_sent better_known
handle_announce pubkey now t from ann =
    let t0 = record t { announces_recv = add64 t.announces_recv 1 } in
    let step = update pubkey now t0 ann in
    let t1 = step.0 in
    if step.1
    then (
      record t1 {
        refresh = if ann.key == pubkey then true else t1.refresh;
        sent = mark_sent from ann.key t1.sent;
      },
      none,
    )
    else (
      record t1 { sent = mark_sent from ann.key t1.sent },
      better_known ann (lookup ann.key t1.infos),
    )
