-- ===== src/Route.antt =====
-- src/pathfind.rs: the coordinates of a node in the tree, and the greedy choice of a next hop.
pub mod Greedy
pub mod Coords
use roots.Prelude.{
  ℕ, zero, suc, ◌+◌, ◌-◌, ◌*◌, ◌^◌, ◌%◌, Bool, true, false, not, ◌&&◌, ◌||◌, Option, none, some,
  List, [], ◌∷◌, ◌++◌, reverse, length, ltb, ◌==◌, if◌then◌else◌,
}
use roots.Prelude.Map.{Map, lookup, keys}
use roots.Prelude.Sets.{contains, set_insert, sort}
use roots.Prelude.Words.{max64, saturating_mul}
use roots.Links.{LinkSet, peers, links_to}
use roots.Tree.State.{TreeState, LinkState, Info}
use roots.Tree.Choice.{link_cost}

-- `loop { .. }` of `root_path_for`, on fuel.
unfoldable pub root_path_loop : Map Info → ℕ → List ℕ → ℕ → List ℕ → Option (List ℕ)
root_path_loop infos zero seen next ports = none
root_path_loop infos (suc fuel) seen next ports = elim (contains next seen) [
  | true ↦ none
  | false ↦ elim (lookup next infos) [
    | none ↦ none
    | some info ↦ elim (next == info.parent) [
      | true ↦ some ports
      | false ↦
          root_path_loop infos fuel (set_insert next seen) info.parent (ports ++ info.res.port ∷ [])
    ]
  ]
]

-- One round for each known key, and one to come back to one of them or to an unknown one.
unfoldable pub root_path_for : Map Info → ℕ → Option (List ℕ)
unfolding root_path_loop
root_path_for infos dest = elim (root_path_loop infos (length (keys infos) + 1) [] dest []) [
  | none ↦ none
  | some ports ↦ some (reverse ports)
]

unfoldable pub root_path : Map Info → ℕ → Option (List ℕ)
unfolding root_path_for
root_path infos pubkey = root_path_for infos pubkey

-- `zip(..).take_while(|(a, b)| a == b).count()`
unfoldable pub common_ports : List ℕ → List ℕ → ℕ
common_ports [] bs = 0
common_ports (a ∷ left) [] = 0
common_ports (a ∷ left) (b ∷ right) =
    let rest = common_ports left right in if a == b then suc rest else 0

unfoldable pub coords_dist : List ℕ → List ℕ → ℕ
unfolding common_ports
coords_dist dest_path key_path =
    (length key_path + length dest_path - 2 * common_ports dest_path key_path) % 2 ^ 64

-- `unwrap_or_default`
unfoldable pub path_or_empty : Option (List ℕ) → List ℕ
path_or_empty none = []
path_or_empty (some p) = p

-- A node whose coordinates are known and closer than `bound`.
unfoldable pub is_closer : List ℕ → ℕ → Option (List ℕ) → Bool
unfolding coords_dist
is_closer path bound none = false
is_closer path bound (some kp) = ltb (coords_dist path kp) bound

-- What the second pass has found.
pub record Hop : Type 0 where
  pub best : Option ℕ
  pub best_cost : ℕ
  pub best_d : ℕ

-- The order of the candidates, against the link that is best so far.
unfoldable pub beats : Option LinkState → LinkState → ℕ → ℕ → ℕ → ℕ → Bool
beats none l cost dist best_cost best_d = true
beats (some b) l cost dist best_cost best_d =
    let score = saturating_mul cost dist in
    let best_score = saturating_mul best_cost best_d in
    if l.of_peer == b.of_peer
    then ltb l.prio b.prio
    else if ltb score best_score
    then true
    else if ltb best_score score
    then false
    else if ltb dist best_d
    then true
    else if ltb best_d dist
    then false
    else if ltb cost best_cost
    then true
    else if ltb best_cost cost
    then false
    else ltb l.order b.order

unfoldable pub state_of : TreeState → Option ℕ → Option LinkState
state_of t none = none
state_of t (some id) = lookup id t.links

-- One candidate of the second pass.
unfoldable pub weigh_hop : TreeState → List ℕ → Hop → ℕ → Hop
unfolding beats state_of path_or_empty root_path_for coords_dist
weigh_hop t path h id = elim (lookup id t.links) [
  | none ↦ h
  | some l ↦
      let dist = coords_dist path (path_or_empty (root_path_for t.infos l.of_peer)) in
      let cost = link_cost t id in
      if beats (state_of t h.best) l cost dist h.best_cost h.best_d
      then record { best = some id; best_cost = cost; best_d = dist }
      else h
]

unfoldable pub weigh_hops : TreeState → List ℕ → Hop → List ℕ → Hop
unfolding weigh_hop
weigh_hops t path h [] = h
weigh_hops t path h (id ∷ ids) = weigh_hops t path (weigh_hop t path h id) ids

module _ {S : Type 0} (pubkey : ℕ) (t : TreeState) (links : LinkSet S) where
  -- The links of the keys that take the packet strictly closer.
  unfoldable pub candidates : List ℕ → ℕ → List ℕ → List ℕ
  unfolding is_closer
  candidates path bound [] = []
  candidates path bound (k ∷ ks) =
      let rest = candidates path bound ks in
      if is_closer path bound (root_path_for t.infos k) then links_to links k ++ rest else rest

  unfoldable pub pick : List ℕ → ℕ → Option ℕ
  unfolding candidates weigh_hops
  pick path bound =
      (weigh_hops t path (record { best = none; best_cost = max64; best_d = max64 })
        (candidates path bound (sort (peers links)))).best

  -- The next hop, and the watermark afterwards.
  unfoldable pub greedy_next : List ℕ → ℕ → Option ℕ × ℕ
  unfolding pick root_path coords_dist
  greedy_next path watermark = elim (root_path t.infos pubkey) [
    | none ↦ (pick path max64, watermark)
    | some sp ↦
        let d = coords_dist path sp in
        if ltb d watermark then (pick path d, d) else (none, watermark)
  ]
