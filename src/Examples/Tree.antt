-- ===== src/Examples/Tree.antt =====
-- A tree of three keys under the root 1.
use roots.Prelude.{
  ℕ, ◌+◌, ◌<◌, ◌≤◌, ◌^◌, ◌≡◌, refl, true, none, some, List, [], ◌∷◌, arith, length, if◌then◌else◌,
}
use roots.Prelude.Map.{Map, lookup, keys, remove}
use roots.Prelude.Sets.{contains, distinct}
use roots.Crypto.{toy}
use roots.Wire.Signed.{SigRes, Announce, check_res}
use roots.Links.{LinkSet, no_links}
use roots.Tree.State.{
  Info, TreeState, new_tree, info_of, supersedes, update, expire, reached, handle_announce,
}
use roots.Tree.State.Adopt.{update_order}
use roots.Tree.State.Expiry.{expire_exact}
use roots.Tree.State.Announces.{Handled, handle_announce_lem}
use roots.Tree.Walks.{root_loop, root_and_dists, ancestry_loop, ancestry}
use roots.Tree.Walks.Rounds.{root_and_dists_enough}
use roots.Tree.Walks.Climb.{Climbed, root_and_dists-Climbed}
use roots.Tree.Messages.{response_to, handle_response}
use roots.Tree.Messages.Exchange.{request_answered}
use roots.Tree.Choice.{start, choose}
use roots.Tree.Choice.Roots.{Sound, eligible, root_of, choose_lem}

abbrev signed : ℕ → SigRes
signed seq = record { req = record { seq = seq; nonce = 7 }; port = 1; psig = 0 }

abbrev under : ℕ → ℕ → Info
under parent seq = record { parent = parent; res = signed seq; sig = 0 }

-- 3 is below 2, which is below the root 1.
abbrev chain : Map Info
chain = (1, under 1 1) ∷ (2, under 1 1) ∷ (3, under 2 1) ∷ []

abbrev tree : TreeState
tree = record new_tree {
  infos = chain;
  deadlines = (1, 50) ∷ (2, 60) ∷ (3, 40) ∷ [];
  peers = (2, record { port = 4; open_req = record { seq = 9; nonce = 8 } }) ∷ [];
}

abbrev newer : Announce
newer = record { key = 3; parent = 1; res = signed 2; sig = 0 }

abbrev older : Announce
older = record { key = 3; parent = 2; res = signed 0; sig = 0 }

newer_first : supersedes (info_of newer) (info_of older) ≡ true
unfolding supersedes
newer_first = refl

update_order_example :
    lookup 3 (update 9 10 (update 9 10 tree newer).0 older).0.infos
    ≡ lookup 3 (update 9 10 (update 9 10 tree older).0 newer).0.infos
update_order_example = update_order 9 10 tree newer older 3 newer_first

deadlines_distinct : distinct (keys tree.deadlines) ≡ true
unfolding distinct keys
deadlines_distinct = refl

expire_exact_example :
    let late = reached 45 (lookup 3 tree.deadlines) in
    (lookup 3 (expire 45 tree).infos ≡ (if late then none else lookup 3 tree.infos))
    × (lookup 3 (expire 45 tree).deadlines ≡ (if late then none else lookup 3 tree.deadlines))
expire_exact_example = expire_exact 45 tree deadlines_distinct 3

-- 3 has gone and 2 has stayed.
expired :
    (lookup 3 (expire 45 tree).infos ≡ none) × (lookup 2 (expire 45 tree).infos ≡ some (under 1 1))
unfolding expire lookup remove
expired = (refl, refl)

handle_announce_lem_example : Handled 9 10 tree 2 older (handle_announce 9 10 tree 2 older)
handle_announce_lem_example = handle_announce_lem 9 10 tree 2 older

root_and_dists_enough_example :
    root_loop chain (length (keys chain) + 1 + 10) 3 3 0 [] ≡ root_and_dists chain 3
root_and_dists_enough_example = root_and_dists_enough chain 10 3

-- The root first.
ancestry_of_three : ancestry chain 3 ≡ 1 ∷ 2 ∷ 3 ∷ []
unfolding ancestry ancestry_loop keys lookup contains
ancestry_of_three = refl

root_and_dists-Climbed_example : Climbed chain 3 (root_and_dists chain 3)
root_and_dists-Climbed_example = root_and_dists-Climbed chain 3

abbrev nobody : LinkSet (List ℕ)
nobody = no_links

abbrev offered : TreeState
offered = record tree { responses = (2, signed 9) ∷ (3, signed 9) ∷ [] }

choose_lem_example :
    Sound 9 offered nobody
      (start 9 offered nobody)
      (keys offered.responses)
      (choose 9 offered nobody)
    × ((choose 9 offered nobody).best_root ≤ (start 9 offered nobody).best_root)
    × ((pk : ℕ)
        → contains pk (keys offered.responses) ≡ true
        → eligible 9 offered nobody pk ≡ true
        → (choose 9 offered nobody).best_root ≤ root_of 9 offered nobody pk)
choose_lem_example = choose_lem 9 offered nobody

asked : lookup 2 tree.peers ≡ some (record { port = 4; open_req = record { seq = 9; nonce = 8 } })
unfolding lookup
asked = refl

unanswered : lookup 2 tree.responses ≡ none
unfolding lookup
unanswered = refl

request_answered_example :
    let res = response_to toy 2 new_tree 9 (record { seq = 9; nonce = 8 }) in
    (check_res toy res 9 2 ≡ true)
    × (lookup 2 (handle_response toy 9 tree 10 1 2 res).responses ≡ some res)
request_answered_example =
    request_answered toy 9 2 new_tree tree
      (record { port = 4; open_req = record { seq = 9; nonce = 8 } }) 10 1 asked unanswered

room : (known : Info) → lookup 3 tree.infos ≡ some known → known.res.req.seq + 1 < 2 ^ 64
unfolding lookup
room known e = grind arith
