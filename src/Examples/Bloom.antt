-- ===== src/Examples/Bloom.antt =====
-- Test vectors of src/bloom.rs and src/address.rs, and the theorems about filters at work.
use roots.Prelude.{
  ℕ, zero, suc, ◌≡◌, refl, true, false, none, some, List, [], ◌∷◌, ◌++◌, All, arith, ◌==◌, ==_iff,
  replicate,
}
use roots.Prelude.Bytes.{be_bytes, of_be}
use roots.Prelude.Map.{lookup}
use roots.Prelude.Map
use roots.Prelude.Sets.{keep}
use roots.Bloom.Wide.{AllWide, insert-AllWide}
use roots.Prelude.Sets.{contains}
use roots.Error.{ok, err, length_error, ◌>>=◌}
use roots.Wire.Fields.{IsU64}
use roots.Address.{addr_for_key, subnet_for_key}
use roots.Table.{Key, new, insert, for_each, probe_start, fnv_write, write_live}
use roots.Links.{Streams}
use roots.Bloom.Filter.{BloomFilter, empty, add, test, encode, decode_exact}
use roots.Bloom.Membership.{test-Grows, same, added, add-IsFilter}
use roots.Bloom.RoundTrip.{decode_exact-encode}
use roots.Bloom.Routing.{BloomState, bloom_add_peer, bloom_handle, bloom_for, tree_keys}
use roots.Bloom.Invariant.{Wide}
use roots.Bloom.Coverage.{Runs, starts, adds, hears, no_blooms, test-bloom_for_heard}
use roots.Bloom.Heard.{last_heard, lookup-last_heard}

-- The keys of the Go vectors.
abbrev r_pub : List ℕ
r_pub = be_bytes 32 0x8a88e3dd7409f195fd52db2d3cba5d72ca6709bf1d94121bf3748801b40f6f5c

abbrev p_pub : List ℕ
p_pub = be_bytes 32 0x8139770ea87d175f56a35466c34c7ecccb8d8a91b4ee37a25df60f5b8fc9b394

abbrev both : BloomFilter
both = add (add empty r_pub) p_pub

encode_vector :
    (encode both >>= λ bytes. ok (of_be bytes))
    ≡ ok
        0xdbeffffbfffff7fbdf7f7ffdfedfdfbf0000000000000000000000000000000000000000000000080000000000040000000000000040000000000000000080000040000000000000000002000000000000008000040000000000000200000000000000000000000400000000040000000000000000002000002000000000004000000000004000000008000000000000
unfolding encode add be_bytes of_be
encode_vector = refl

test_vectors : (test (add empty r_pub) r_pub ≡ true) × (test (add empty r_pub) p_pub ≡ false)
unfolding test add be_bytes
test_vectors = (refl, refl)

short_refused : decode_exact [] ≡ err length_error
unfolding decode_exact
short_refused = refl

abbrev node_key : List ℕ
node_key = be_bytes 32 0xbdbacfd82240de3dcd123924cbb55256fb8dab08aa98e305528ab84f419e6efb

addr_vector : of_be (addr_for_key node_key) ≡ 0x0200848a604fbb7e438465db8db66895
unfolding addr_for_key be_bytes of_be
addr_vector = refl

subnet_vector : of_be (subnet_for_key node_key) ≡ 0x0300848a604fbb7e
unfolding subnet_for_key be_bytes of_be
subnet_vector = refl

-- Keys hash to one byte here, which the table allows.
abbrev byte_key : Key ℕ
byte_key = record { eq = λ a b. a == b; eq_iff = ==_iff; hash_bytes = λ k. k ∷ [] }

abbrev no_streams : Streams (List ℕ)
no_streams = record {
  write_all = λ s bytes. some (s ++ bytes);
  next_frame = λ s. (s, err length_error);
}

test-Grows_example : test (add (add empty r_pub) p_pub) r_pub ≡ true
test-Grows_example =
    test-Grows empty (add (add empty r_pub) p_pub) r_pub refl (added (add empty r_pub) p_pub same)

-- Words of all three kinds.
abbrev mixed : BloomFilter
mixed = record { words = 5 ∷ 18446744073709551615 ∷ replicate 126 0 }

zeros-IsU64 : (n : ℕ) → All IsU64 (replicate n 0)
zeros-IsU64 zero = tt
zeros-IsU64 (suc n) = (omega arith, zeros-IsU64 n)

decode_exact-encode_example : (encode mixed >>= decode_exact) ≡ ok mixed
decode_exact-encode_example =
    decode_exact-encode mixed refl (omega arith, (omega arith, zeros-IsU64 126))

-- A peer is added, sends a filter that is too short, and maintenance runs.
abbrev met : BloomState
met = bloom_add_peer byte_key (no_blooms (new 64)) 5

abbrev refused : BloomState
refused = (bloom_handle byte_key met 5 (7 ∷ [])).0

met-Runs : Runs byte_key no_streams 1 refused
met-Runs = hears met 5 (7 ∷ []) (adds (no_blooms (new 64)) 5 (starts (new 64)))

-- A filter whose first word is 9 and whose others are zero, then the same malformed payload.
abbrev nine : List ℕ
nine = 127 ∷ replicate 15 255 ++ replicate 16 0 ++ be_bytes 8 9

abbrev taught : BloomState
taught = (bloom_handle byte_key (bloom_handle byte_key refused 5 nine).0 5 (7 ∷ [])).0

taught-Runs : Runs byte_key no_streams 1 taught
taught-Runs =
    hears (bloom_handle byte_key refused 5 nine).0 5 (7 ∷ []) (hears refused 5 nine met-Runs)

lookup-last_heard_example : lookup 5 taught.recv ≡ some (record { words = 9 ∷ replicate 127 0 })
unfolding last_heard decode_exact met-Runs taught-Runs be_bytes of_be
lookup-last_heard_example = lookup-last_heard byte_key no_streams 1 5 taught taught-Runs

-- A filter of a router that was not told of its sender is dropped.
stranger_dropped : lookup 6 refused.recv ≡ none
unfolding last_heard decode_exact met-Runs
stranger_dropped = lookup-last_heard byte_key no_streams 1 6 refused met-Runs

-- Two peers on the tree, one of which was heard.
abbrev heard : BloomState
heard = record {
  send = [];
  recv = Map.insert 5 (add empty r_pub) [];
  on_tree = (insert 64 byte_key (insert 64 byte_key (new 64) 5 true).0 6 true).0;
  dropped_no_link = 0;
}

none-AllWide : AllWide []
unfolding lookup
none-AllWide k f e = cc e

heard-Wide : Wide heard
heard-Wide = record {
  wide_send = none-AllWide;
  wide_recv = insert-AllWide 5 (add empty r_pub) [] none-AllWide (add-IsFilter empty r_pub refl);
}

on_tree_five : contains 5 (tree_keys byte_key heard) ≡ true
unfolding contains tree_keys keep for_each insert new probe_start fnv_write write_live
on_tree_five = refl

found_five : lookup 5 heard.recv ≡ some (add empty r_pub)
unfolding lookup Map.insert
found_five = refl

test-bloom_for_heard_example : test (bloom_for byte_key 1 heard 6) r_pub ≡ true
test-bloom_for_heard_example =
    test-bloom_for_heard byte_key 1 heard heard-Wide 6 5 (add empty r_pub) r_pub
      (λ e. omega (arith, e)) on_tree_five found_five
      (test-Grows empty (add empty r_pub) r_pub refl same)
