-- ===== src/Examples/Route.antt =====
-- Coordinates and the greedy choice in a small tree.
use roots.Prelude.{ℕ, ◌+◌, ◌≤◌, ◌<◌, ◌≡◌, refl, true, none, some, List, [], ◌∷◌, length}
use roots.Prelude.Map.{Map, lookup, keys}
use roots.Prelude.Sets.{contains, set_insert, sort}
use roots.Links.{LinkSet, no_links, add_link, peers, links_to}
use roots.Tree.State.{TreeState, Info, LinkState, new_tree, go}
use roots.Tree.Choice.{link_cost}
use roots.Route.{root_path, root_path_loop, coords_dist, greedy_next}
use roots.Route.Coords.{root_path_enough}
use roots.Route.Greedy.{LeadsBelow, greedy_next_lem, rests, hops, Forwarded-bound}

-- 3 is the root, 5 its child at port 1, 6 its child at port 2, 7 a child of 6 at port 4.
abbrev child : ℕ → ℕ → Info
child parent port = record {
  parent = parent;
  res = record { req = record { seq = 1; nonce = 1 }; port = port; psig = 0 };
  sig = 0;
}

abbrev infos : Map Info
infos = (3, child 3 0) ∷ (5, child 3 1) ∷ (6, child 3 2) ∷ (7, child 6 4) ∷ []

abbrev link_state : ℕ → ℕ → LinkState
link_state peer order = record {
  of_peer = peer;
  responded = true;
  lag = 3000000;
  sent_at = none;
  prio = 0;
  order = order;
  kind = go;
  srrt = none;
}

abbrev tree : TreeState
tree = record new_tree { infos = infos; links = (1, link_state 3 1) ∷ (2, link_state 6 2) ∷ [] }

abbrev links : LinkSet (List ℕ)
links = add_link (add_link no_links 0 3 1 true []) 0 6 2 true []

five_at : root_path infos 5 ≡ some (1 ∷ [])
unfolding root_path keys contains lookup set_insert
five_at = refl

-- To 7, whose coordinates are 2, 4: node 6 is closer than the root.
five_forwards : greedy_next 5 tree links (2 ∷ 4 ∷ []) 100 ≡ (some 2, 3)
unfolding greedy_next keys contains lookup set_insert sort peers add_link links_to link_cost
five_forwards = refl

greedy_next_lem_example :
    (3 ≡ coords_dist (2 ∷ 4 ∷ []) (1 ∷ []))
    × (3 < 100)
    × LeadsBelow 5 tree links (2 ∷ 4 ∷ []) 3 2 (sort (peers links))
greedy_next_lem_example =
    greedy_next_lem 5 tree links (2 ∷ 4 ∷ []) (1 ∷ []) 100 five_at 2 3 five_forwards

Forwarded-bound_example : 1 + 3 ≤ 100
Forwarded-bound_example =
    Forwarded-bound (2 ∷ 4 ∷ []) 100 3 1
      (hops 5 tree links (1 ∷ []) 100 3 3 2 0 five_at five_forwards (rests 3))

root_path_enough_example :
    root_path_loop infos (length (keys infos) + 1 + 3) [] 7 []
    ≡ root_path_loop infos (length (keys infos) + 1) [] 7 []
root_path_enough_example = root_path_enough infos 7 3
