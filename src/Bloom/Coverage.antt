-- ===== src/Bloom/Coverage.antt =====
-- The runs of a router's filters, and what the filter that it advertises answers.
use roots.Prelude.{
  ℕ, ◌≡◌, ◌≢◌, ◌∙◌, ap, sym, refl, inl, inr, Bool, true, not, ◌&&◌, ◌||◌, Option, none, some, List,
  [], ◌∷◌, map, ◌==◌, ==_iff, Bool-cases, Option-cases, arith,
}
use roots.Prelude.Map.{Map, lookup}
use roots.Prelude.Sets.{keep, sort, contains, contains-sort}
use roots.Table.{Key, for_each, Table}
use roots.Links.{LinkSet, Streams}
use roots.Tree.State.{Info}
use roots.Bloom.Hash.{locations_for}
use roots.Bloom.Filter.{BloomFilter, empty, add, test, merge, has_bit}
use roots.Bloom.Membership.{
  IsFilter, Grows, same, added, merged, add-IsFilter, test-Grows, has-Grows, has-merge,
  has_bits-all,
}
use roots.Bloom.Wide.{AllWide, empty-IsFilter}
use roots.Bloom.Routing.{
  BloomState, xkey, merge_known, merge_all, bloom_add_peer, bloom_fix, bloom_for, bloom_handle,
  bloom_maintenance, tree_keys,
}
use roots.Bloom.Invariant.{
  merge_known-IsFilter, merge_all-IsFilter, Wide, add_peer-Wide, fix-Wide, handle-Wide,
  maintenance-Wide,
}

-- `BloomState::default`, and what a router does to it.
unfoldable pub no_blooms : Table ℕ Bool → BloomState
no_blooms t = record { send = []; recv = []; on_tree = t; dropped_no_link = 0 }

no_blooms-Wide : (t : Table ℕ Bool) → Wide (no_blooms t)
unfolding no_blooms lookup
no_blooms-Wide t = record { wide_send = λ k f e. cc e; wide_recv = λ k f e. cc e }

module _ {S : Type 0} (key_of : Key ℕ) (io_of : Streams S) (pubkey : ℕ) where
  pub data Runs : BloomState → Type 0 where
    starts : (t : Table ℕ Bool) → Runs (no_blooms t)
    adds : (s : BloomState) (peer : ℕ) → Runs s → Runs (bloom_add_peer key_of s peer)
    fixes : (s : BloomState) (infos : Map Info) → Runs s → Runs (bloom_fix key_of pubkey infos s)
    hears :
        (s : BloomState) (from : ℕ) (payload : List ℕ)
        → Runs s
        → Runs (bloom_handle key_of s from payload).0
    maintains :
        (s : BloomState) (infos : Map Info) (links : LinkSet S) (now : ℕ)
        → Runs s
        → Runs (bloom_maintenance key_of io_of now pubkey infos s links).0

  -- Whatever peers a router is told of, whatever payloads it is sent as filters, malformed ones
  -- included, and whatever maintenance it runs, every filter it keeps is of full width.
  pub Runs-Wide : (s : BloomState) → Runs s → Wide s
  Runs-Wide _ (starts t) = no_blooms-Wide t
  Runs-Wide _ (adds s peer r) = add_peer-Wide key_of s peer (Runs-Wide s r)
  Runs-Wide _ (fixes s infos r) = fix-Wide key_of pubkey infos s (Runs-Wide s r)
  Runs-Wide _ (hears s from payload r) = handle-Wide key_of s from payload (Runs-Wide s r)
  Runs-Wide _ (maintains s infos links now r) =
      maintenance-Wide key_of io_of now pubkey s links infos (Runs-Wide s r)

merge_known-Grows :
    (b : BloomFilter) (k : ℕ) (m : Map BloomFilter)
    → AllWide m
    → Grows b (merge_known b (lookup k m))
unfolding merge_known
merge_known-Grows b k m h = elim (Option-cases (lookup k m)) [
  | inl e ↦ rw e same
  | inr (f, e) ↦ rw e (merged b f (h k f e) same)
]

Grows-trans : {a b c : BloomFilter} → Grows a b → Grows b c → Grows a c
Grows-trans g same = g
Grows-trans g (added c bytes h) = added c bytes (Grows-trans g h)
Grows-trans g (merged c f w h) = merged c f w (Grows-trans g h)

merge_all-Grows :
    (b : BloomFilter) (m : Map BloomFilter) (ks : List ℕ) → AllWide m → Grows b (merge_all b m ks)
unfolding merge_all
merge_all-Grows b m [] h = same
merge_all-Grows b m (k ∷ ks) h =
    Grows-trans (merge_known-Grows b k m h) (merge_all-Grows (merge_known b (lookup k m)) m ks h)

merge_known-heard :
    (b : BloomFilter) (o : Option BloomFilter) (l : ℕ) (r : BloomFilter)
    → o ≡ some r
    → IsFilter b
    → IsFilter r
    → has_bit r.words l ≡ true
    → has_bit (merge_known b o).words l ≡ true
unfolding merge_known
merge_known-heard b none l r e w w' on = absurd (cc e)
merge_known-heard b (some f) l r e w w' on =
    let at : f ≡ r = cc e in
    ground (arith, ap (λ (g : BloomFilter). has_bit (merge b g).words l) at, has-merge b r l w w')

merge_all_step :
    (b : BloomFilter) (m : Map BloomFilter) (k : ℕ) (ks : List ℕ)
    → merge_all b m (k ∷ ks) ≡ merge_all (merge_known b (lookup k m)) m ks
unfolding merge_all
merge_all_step b m k ks = refl

-- A filter of the map that is merged in leaves its locations.
merge_all-heard :
    (b : BloomFilter) (m : Map BloomFilter) (ks : List ℕ) (k l : ℕ) (r : BloomFilter)
    → AllWide m
    → IsFilter b
    → contains k ks ≡ true
    → lookup k m ≡ some r
    → has_bit r.words l ≡ true
    → has_bit (merge_all b m ks).words l ≡ true
unfolding contains
merge_all-heard b m [] k l r h w there at on = absurd (cc there)
merge_all-heard b m (j ∷ ks) k l r h w there at on =
    let b' = merge_known b (lookup j m) in
    let w' = merge_known-IsFilter b (lookup j m) w in
    ap (λ (f : BloomFilter). has_bit f.words l) (merge_all_step b m j ks)
    ∙ elim (Bool-cases (j == k)) [
      | inl e ↦ has-Grows l (merge_all-Grows b' m ks h) w' (
          merge_known-heard b (lookup j m) l r (ap (λ (x : ℕ). lookup x m) ((==_iff j k).0 e) ∙ at)
            w (h k r at) on)
      | inr e ↦
          merge_all-heard b' m ks k l r h w' (sym (ap (λ (x : Bool). x || contains k ks) e) ∙ there)
            at on
    ]

contains-others :
    (k peer : ℕ) (es : List (ℕ × Bool))
    → k ≢ peer
    → contains k (map (λ e. e.0) (keep (λ e. e.1) es)) ≡ true
    → contains k (map (λ e. e.0) (keep (λ e. e.1 && not (e.0 == peer)) es)) ≡ true
unfolding contains keep
contains-others k peer [] h e = e
contains-others k peer (x ∷ es) h e = ground (arith, contains-others k peer es h)

module _ (key_of : Key ℕ) (pubkey : ℕ) (s : BloomState) (wide : Wide s) (peer : ℕ) where
  own_filter : BloomFilter
  own_filter = add empty (xkey pubkey)

  -- Before what was sent to the peer is merged in.
  heard_filter : BloomFilter
  unfolding own_filter
  heard_filter =
      merge_all own_filter s.recv (
        sort (map (λ e. e.0) (keep (λ e. e.1 && not (e.0 == peer)) (for_each 64 key_of s.on_tree))))

  heard-Grows : Grows heard_filter (bloom_for key_of pubkey s peer)
  unfolding heard_filter own_filter bloom_for
  heard-Grows = merge_known-Grows heard_filter peer s.send wide.wide_send

  heard-IsFilter : IsFilter heard_filter
  unfolding heard_filter own_filter
  heard-IsFilter =
      merge_all-IsFilter own_filter s.recv _ (add-IsFilter empty (xkey pubkey) empty-IsFilter)

  -- The filter that a router with filters of full width advertises to a peer answers yes for the
  -- router's own key.
  pub test-bloom_for : test (bloom_for key_of pubkey s peer) (xkey pubkey) ≡ true
  unfolding heard_filter own_filter
  test-bloom_for =
      test-Grows empty (bloom_for key_of pubkey s peer) (xkey pubkey) empty-IsFilter
        (Grows-trans (merge_all-Grows own_filter s.recv _ wide.wide_recv) heard-Grows)

  -- Where a router keeps filters of full width, what a peer on the tree was heard to answer yes for,
  -- the filter advertised to any other peer answers yes for too.
  pub test-bloom_for_heard :
      (k : ℕ) (r : BloomFilter) (bytes : List ℕ)
      → k ≢ peer
      → contains k (tree_keys key_of s) ≡ true
      → lookup k s.recv ≡ some r
      → test r bytes ≡ true
      → test (bloom_for key_of pubkey s peer) bytes ≡ true
  unfolding test heard_filter own_filter tree_keys
  test-bloom_for_heard k r bytes other there at answers =
      has_bits-all r.words (bloom_for key_of pubkey s peer).words (locations_for bytes)
        (λ l on. has-Grows l heard-Grows heard-IsFilter (
          merge_all-heard own_filter s.recv _ k l r wide.wide_recv
            (add-IsFilter empty (xkey pubkey) empty-IsFilter)
            (contains-sort k _ ∙ contains-others k peer (for_each 64 key_of s.on_tree) other there)
            at on))
        answers
