-- ===== src/Examples/Table.antt =====
-- A table of two slots, keyed by numbers.
use roots.Prelude.{ℕ, ◌≡◌, ◌⊎◌, ◌↔◌, refl, none, some, [], ◌∷◌, ◌==◌, ==_iff}
use roots.Table.{
  Key, Table, ok, table_full, new, get, contains, insert, remove, probe_start, fnv_write,
  write_live, matches,
}
use roots.Table.Lookup.{is_some, get_exact, contains-get}
use roots.Table.Invariant.{Holds, Inv, new-Inv}
use roots.Table.Insert.{Stored, Refused, insert_cases, insert-Inv}
use roots.Table.Remove.{Removed, remove_lem}

abbrev byte_key : Key ℕ
byte_key = record { eq = ◌==◌; eq_iff = ==_iff; hash_bytes = λ k. k ∷ [] }

abbrev empty : Table ℕ ℕ
empty = new 2

abbrev two : Table ℕ ℕ
two = (insert 2 byte_key (insert 2 byte_key empty 7 40).0 9 41).0

two-Inv : Inv 2 byte_key two
two-Inv =
    insert-Inv 2 byte_key (insert 2 byte_key empty 7 40).0
      (insert-Inv 2 byte_key empty (new-Inv 2 byte_key) 7 40) 9 41

insert_cases_example :
    Stored 2 byte_key two 9 43 (insert 2 byte_key two 9 43)
    ⊎ Refused 2 byte_key two 9 43 (insert 2 byte_key two 9 43)
insert_cases_example = insert_cases 2 byte_key two two-Inv 9 43

remove_lem_example : Removed 2 byte_key two 7 (remove 2 byte_key two 7)
remove_lem_example = remove_lem 2 byte_key two two-Inv 7

get_exact_example : (get 2 byte_key two 7 ≡ some 40) ↔ ((i : ℕ) × Holds two i 7 40)
get_exact_example = get_exact two-Inv 7 40

contains-get_example : contains 2 byte_key two 7 ≡ is_some (get 2 byte_key two 7)
contains-get_example = contains-get 2 byte_key two 7

-- The third key does not fit two slots.
third_refused : insert 2 byte_key two 11 42 ≡ (two, table_full)
unfolding insert new probe_start fnv_write write_live matches
third_refused = refl

-- After a removal it does, and the tombstone hides nothing.
after_removal :
    let t : Table ℕ ℕ = (remove 2 byte_key two 7).0 in
    (get 2 byte_key t 9 ≡ some 41) × ((insert 2 byte_key t 11 42).1 ≡ ok none)
unfolding insert remove get new probe_start fnv_write write_live matches
after_removal = (refl, refl)
