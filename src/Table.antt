-- ===== src/Table.antt =====
-- core/src/table.rs: the fixed-capacity open-addressed map. The slots and their states are lists of
-- length `capacity`; the state bytes NEVER_USED, LIVE and TOMBSTONE are a data type. Keys have a
-- Boolean equality and the bytes that their `Hash` writes, which the standard library chooses.
pub mod Probe
pub mod Invariant
pub mod Lookup
pub mod Outcome
pub mod Changes
pub mod Update
pub mod Insert
pub mod Remove
use Prim.Native.Nat.{bit_xor}
use mathlib.Core.List.{foldl}
use roots.Prelude.{
  ℕ, zero, suc, ◌+◌, ◌-◌, ◌*◌, ◌%◌, ◌^◌, ◌≡◌, ◌↔◌, Bool, true, false, Option, none, some, List, [],
  ◌∷◌, ◌==◌, if◌then◌else◌, length, get_or, set, replicate,
}

-- FNV-1a
abbrev fnv_offset : ℕ
fnv_offset = 0xcbf29ce484222325

abbrev fnv_prime : ℕ
fnv_prime = 0x100000001b3

unfoldable pub fnv_write : ℕ → List ℕ → ℕ
fnv_write h bytes = foldl (λ (h : ℕ) (b : ℕ). bit_xor h b * fnv_prime % 2 ^ 64) h bytes

pub data SlotState : Type 0 where
  never_used live tombstone : SlotState

-- `K: Eq + Hash`
pub record Key (K : Type 0) : Type 0 where
  pub eq : K → K → Bool
  pub eq_iff : (a b : K) → (eq a b ≡ true) ↔ (a ≡ b)
  pub hash_bytes : K → List ℕ

pub record Table (K V : Type 0) : Type 0 where
  pub slots : List (Option (K × V))
  pub state : List SlotState
  pub tombs : ℕ

pub data InsertResult (V : Type 0) : Type 0 where
  ok : Option V → InsertResult V
  table_full : InsertResult V

-- `self.state.iter().filter(|s| **s != NEVER_USED).count()`
unfoldable pub count_used : List SlotState → ℕ
count_used [] = 0
count_used (never_used ∷ ss) = count_used ss
count_used (live ∷ ss) = suc (count_used ss)
count_used (tombstone ∷ ss) = suc (count_used ss)

unfoldable pub is_tombstone : SlotState → Bool
is_tombstone tombstone = true
is_tombstone _ = false

-- `first_tomb.get_or_insert(i)`
get_or_insert : Option ℕ → ℕ → Option ℕ
get_or_insert none i = some i
get_or_insert (some j) i = some j

-- `first_tomb.unwrap_or(i)`
unwrap_or : Option ℕ → ℕ → ℕ
unwrap_or none i = i
unwrap_or (some j) i = j

module _ {K V : Type 0} where
  abbrev pub slot_at : Table K V → ℕ → Option (K × V)
  slot_at t i = get_or t.slots i none

  abbrev pub state_at : Table K V → ℕ → SlotState
  state_at t i = get_or t.state i never_used

  unfoldable pub new : ℕ → Table K V
  new n = record { slots = replicate n none; state = replicate n never_used; tombs = 0 }

  unfoldable pub occupied : Table K V → ℕ
  unfolding count_used
  occupied t = count_used t.state

  unfoldable pub len : Table K V → ℕ
  len t = occupied t - t.tombs

  unfoldable pub is_empty : Table K V → Bool
  is_empty t = len t == 0

  -- `slots[i] = Some((key, value)); state[i] = LIVE`
  unfoldable pub write_live : Table K V → ℕ → K → V → Table K V
  write_live t i key value = record t {
    slots = set t.slots i (some (key, value));
    state = set t.state i live;
  }

  -- The end of the chain: the first tombstone if there was one, else the slot that ends it.
  unfoldable pub place : Table K V → K → V → ℕ → Table K V × InsertResult V
  unfolding is_tombstone
  place t key value target =
      let was_tomb = is_tombstone (state_at t target) in
      let t' = write_live t target key value in
      (record t' { tombs = if was_tomb then t.tombs - 1 else t.tombs }, ok none)

  -- The whole table was walked.
  place_full : Table K V → K → V → Option ℕ → Table K V × InsertResult V
  place_full t key value (some target) =
      (record (write_live t target key value) { tombs = t.tombs - 1 }, ok none)
  place_full t key value none = (t, table_full)

module _ {K V : Type 0} (key_of : Key K) where
  open key_of use {eq}

  -- `if let Some((k, v)) = slot && k == *key`
  value_if : K → Option (K × V) → Option V
  value_if key none = none
  value_if key (some (k, v)) = if eq k key then some v else none

  unfoldable pub matches : Table K V → ℕ → K → Option V
  unfolding value_if
  matches t i key = value_if key (slot_at t i)

-- `N` is `n`.
module _ {K : Type 0} (n : ℕ) (key_of : Key K) where
  unfoldable pub probe_start : K → ℕ
  probe_start key = if n == 0 then 0 else fnv_write fnv_offset (key_of.hash_bytes key) % n

module _ {K V : Type 0} (n : ℕ) (key_of : Key K) where
  pub get_loop : Table K V → K → ℕ → ℕ → Option V
  get_loop t key zero i = none
  get_loop t key (suc left) i =
      let next = get_loop t key left ((i + 1) % n) in
      elim (state_at t i) [
        | never_used ↦ none
        | live ↦ elim (matches key_of t i key) [ some v ↦ some v | none ↦ next ]
        | tombstone ↦ next
      ]

  unfoldable pub get : Table K V → K → Option V
  unfolding get_loop
  get t key = get_loop t key n (probe_start n key_of key)

  contains_loop : Table K V → K → ℕ → ℕ → Bool
  contains_loop t key zero i = false
  contains_loop t key (suc left) i =
      let next = contains_loop t key left ((i + 1) % n) in
      elim (state_at t i) [
        | never_used ↦ false
        | live ↦ elim (matches key_of t i key) [ some v ↦ true | none ↦ next ]
        | tombstone ↦ next
      ]

  unfoldable pub contains : Table K V → K → Bool
  unfolding contains_loop
  contains t key = contains_loop t key n (probe_start n key_of key)

  insert_loop : Table K V → K → V → ℕ → ℕ → Option ℕ → Table K V × InsertResult V
  insert_loop t key value zero i first_tomb = place_full t key value first_tomb
  insert_loop t key value (suc left) i first_tomb = elim (state_at t i) [
    | live ↦ elim (matches key_of t i key) [
      | some old ↦ (record t { slots = set t.slots i (some (key, value)) }, ok (some old))
      | none ↦ insert_loop t key value left ((i + 1) % n) first_tomb
    ]
    | tombstone ↦ insert_loop t key value left ((i + 1) % n) (get_or_insert first_tomb i)
    | never_used ↦ place t key value (unwrap_or first_tomb i)
  ]

  unfoldable pub insert : Table K V → K → V → Table K V × InsertResult V
  unfolding insert_loop place place_full get_or_insert unwrap_or
  insert t key value = insert_loop t key value n (probe_start n key_of key) none

  remove_loop : Table K V → K → ℕ → ℕ → Table K V × Option V
  remove_loop t key zero i = (t, none)
  remove_loop t key (suc left) i = elim (state_at t i) [
    | never_used ↦ (t, none)
    | live ↦ elim (matches key_of t i key) [
      | some v ↦ (
        record { slots = set t.slots i none; state = set t.state i tombstone; tombs = t.tombs + 1 },
        some v,
      )
      | none ↦ remove_loop t key left ((i + 1) % n)
    ]
    | tombstone ↦ remove_loop t key left ((i + 1) % n)
  ]

  unfoldable pub remove : Table K V → K → Table K V × Option V
  unfolding remove_loop
  remove t key = remove_loop t key n (probe_start n key_of key)

  -- `for i in 0..N` over the live slots, from `i`.
  entries_loop : Table K V → ℕ → ℕ → List (K × V)
  entries_loop t zero i = []
  entries_loop t (suc left) i =
      let rest = entries_loop t left (i + 1) in
      elim (state_at t i) [
        | live ↦ elim (slot_at t i) [ none ↦ rest | some entry ↦ entry ∷ rest ]
        | _ ↦ rest
      ]

  -- What `for_each` calls its function on, in order.
  unfoldable pub for_each : Table K V → List (K × V)
  unfolding entries_loop
  for_each t = entries_loop t n 0

  unfoldable pub compact : Table K V → Table K V
  compact t =
      if t.tombs == 0
      then t
      else foldl (λ (fresh : Table K V) (e : K × V). (insert fresh e.0 e.1).0) (new n) (for_each t)
