-- ===== src/Tree/Choice.antt =====
-- `fix`, the choice of a parent, with `cost` and `link_cost`.
pub mod Roots
use roots.Prelude.{
  ℕ, ◌*◌, ◌/◌, ◌%◌, ◌^◌, Bool, true, false, not, ◌&&◌, ◌||◌, Option, none, some, List, [], ◌∷◌, ltb,
  ◌==◌, min, max, if◌then◌else◌,
}
use roots.Prelude.Map.{Map, lookup, keys}
use roots.Prelude.Sets.{sort}
use roots.Prelude.Words.{max64, saturating_mul}
use roots.Error.{Result, ok, err}
use roots.Crypto.{Ed25519}
use roots.Wire.Signed.{SigRes}
use roots.Links.{Streams, LinkSet, links_to, has_peer}
use roots.Tree.State.{LinkState, Info, TreeState}
use roots.Tree.Walks.{has_key, root_and_dists}
use roots.Tree.Messages.{use_response, become_root, send_all_reqs, Sent}

-- `as_millis() as u64`, 0 for a link that the tree does not know, and 1 at least.
unfoldable pub link_cost : TreeState → ℕ → ℕ
link_cost t id = max (elim (lookup id t.links) [ none ↦ 0 | some l ↦ l.lag / 1000000 % 2 ^ 64 ]) 1

-- `iter().map(..).min().unwrap_or(u64::MAX)`
unfoldable pub cheapest : TreeState → List ℕ → ℕ
unfolding link_cost
cheapest t [] = max64
cheapest t (id ∷ []) = link_cost t id
cheapest t (id ∷ other ∷ ids) = min (link_cost t id) (cheapest t (other ∷ ids))

unfoldable pub cost : {S : Type 0} → TreeState → LinkSet S → ℕ → ℕ
unfolding cheapest links_to
cost t links peer = cheapest t (links_to links peer)

pub record Best : Type 0 where
  pub best_root : ℕ
  pub best_parent : ℕ
  pub best_cost : ℕ

module _ {S : Type 0} (pubkey : ℕ) (t : TreeState) (links : LinkSet S) where
  -- `self_info.map(|i| i.parent)`
  unfoldable pub cur_parent : Option ℕ
  cur_parent = elim (lookup pubkey t.infos) [ none ↦ none | some i ↦ some i.parent ]

  is_cur : ℕ → Option ℕ → Bool
  is_cur parent none = false
  is_cur parent (some p) = p == parent

  abbrev own : Best
  own = record { best_root = pubkey; best_parent = pubkey; best_cost = max64 }

  -- The current parent, if it is live and leads to a lower root.
  unfoldable pub start : Best
  unfolding cost has_peer root_and_dists
  start = elim (lookup pubkey t.infos) [
    | none ↦ own
    | some info ↦
        let walk = root_and_dists t.infos pubkey in
        if has_peer links info.parent && ltb walk.0 pubkey
        then elim (lookup walk.0 walk.1) [
          | none ↦ own
          | some d ↦ record {
            best_root = walk.0;
            best_parent = info.parent;
            best_cost = saturating_mul d (cost t links info.parent);
          }
        ]
        else own
  ]

  -- The cost of a candidate by the walk up from it.
  unfoldable pub cost_via : ℕ → ℕ × Map ℕ → ℕ
  unfolding cost
  cost_via pk walk =
      saturating_mul (elim (lookup walk.0 walk.1) [ none ↦ max64 | some d ↦ d ]) (cost t links pk)

  -- The two tests of a candidate that leads to the best root.
  unfoldable pub cheaper : Best → ℕ → Bool
  unfolding cur_parent is_cur
  cheaper b c =
      (t.refresh && ltb (saturating_mul c 2) b.best_cost)
      || (not (is_cur b.best_parent cur_parent) && ltb c b.best_cost)

  -- The tests of a candidate against the best so far.
  unfoldable pub weigh : Best → Best → Best
  weigh b this =
      let lower = if ltb this.best_root b.best_root then this else b in
      if not (this.best_root == lower.best_root)
      then b
      else if cheaper lower this.best_cost
      then this
      else lower

  -- The body of the loop over the candidates.
  unfoldable pub consider : Best → ℕ → Best
  unfolding has_key root_and_dists cost_via weigh
  consider b pk = elim (lookup pk t.infos) [
    | none ↦ b
    | some i ↦
        let walk = root_and_dists t.infos pk in
        if has_key pubkey walk.1
        then b
        else weigh b (record { best_root = walk.0; best_parent = pk; best_cost = cost_via pk walk })
  ]

  unfoldable pub scan : Best → List ℕ → Best
  unfolding consider
  scan b [] = b
  scan b (pk ∷ pks) = scan (consider b pk) pks

  -- The parent that `fix` settles on; the candidates are the keys with a response, in order.
  unfoldable pub choose : Best
  unfolding start scan
  choose = scan start (sort (keys t.responses))

-- `refresh`, `do_root1` and `do_root2` are reset.
settled : TreeState → TreeState
settled t = record t { refresh = false; do_root1 = false; do_root2 = false }

module _ {S : Type 0} (c : Ed25519) (seed : ℕ) (io_of : Streams S) where
  open c use {public_key}

  -- `best_root != self.pubkey && let Some(res) = .. && self.use_response(best_parent, &res)`
  adopt_parent : TreeState → ℕ → Best → TreeState × Bool
  unfolding use_response
  adopt_parent t now b =
      if b.best_root == public_key seed
      then (t, false)
      else elim (lookup b.best_parent t.responses) [
        | none ↦ (t, false)
        | some res ↦ use_response c seed now t b.best_parent res
      ]

  unfoldable pub fix : TreeState → LinkSet S → ℕ → (ℕ → ℕ) → Sent io_of
  unfolding choose cheaper cur_parent is_cur adopt_parent become_root send_all_reqs settled
  fix t links now nonce =
      let pubkey = public_key seed in
      let b = choose pubkey t links in
      let step = adopt_parent t now b in
      let t1 = step.0 in
      if not (
        t.refresh
        || (t.do_root1
            || (t.do_root2
                || not (is_cur pubkey t links b.best_parent (cur_parent pubkey t links)))))
      then (t, links, ok tt)
      else if step.1
      then send_all_reqs io_of pubkey (settled t1) links now nonce
      else if t1.do_root2
      then send_all_reqs io_of pubkey (settled (become_root c seed now t1 (nonce pubkey))) links now
          nonce
      else if not t1.do_root1
      then (record t1 { do_root1 = true }, links, ok tt)
      else (t1, links, ok tt)
