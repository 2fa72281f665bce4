-- ===== src/Address.antt =====
-- core/src/address.rs: the addresses and subnets that a node has by its key, and the part of the key
-- that an address gives back. Keys, addresses and subnets are lists of bytes.
use Prim.Native.Nat.{bit_or}
use roots.Prelude.{
  ℕ, zero, suc, ◌+◌, ◌-◌, ◌*◌, ◌/◌, ◌%◌, ◌^◌, min, Bool, true, false, not, ◌&&◌, List, [], ◌∷◌,
  ◌++◌, map, length, get_or, set, take, replicate, copy_into, ◌==◌, ltb, leb, if◌then◌else◌,
}

abbrev pub node_prefix : ℕ
node_prefix = 0x02

abbrev pub subnet_bit : ℕ
subnet_bit = 0x01

abbrev pub addr_len : ℕ
addr_len = 16

abbrev pub subnet_len : ℕ
subnet_len = 8

abbrev prefix_len : ℕ
prefix_len = 1

abbrev addr_payload_len : ℕ
addr_payload_len = addr_len - prefix_len - 1

abbrev payload_bit_offset : ℕ
payload_bit_offset = 8 * (prefix_len + 1)

abbrev key_bits : ℕ
key_bits = 256

-- `!b`
unfoldable pub invert : ℕ → ℕ
invert b = 255 - b

-- `(bytes[idx / 8] >> (7 - (idx % 8))) & 1`
unfoldable pub bit_at : List ℕ → ℕ → ℕ
bit_at bytes idx = get_or bytes (idx / 8) 0 / 2 ^ (7 - idx % 8) % 2

-- The variables of `addr_for_key`; `temp` is what is written of it.
pub record Scan : Type 0 where
  pub temp : List ℕ
  pub bits : ℕ
  pub nbits : ℕ
  pub seen_zero : Bool
  pub ones : ℕ

-- One bit behind the first zero.
unfoldable pub push_bit : ℕ → Scan → Scan
push_bit bit s =
    let bits = bit_or (s.bits * 2 % 256) bit in
    if s.nbits + 1 == 8
    then record s {
      nbits = 0;
      bits = 0;
      temp = if ltb (length s.temp) 32 then s.temp ++ bits ∷ [] else s.temp;
    }
    else record s { nbits = s.nbits + 1; bits = bits }

unfoldable pub scan_bit : ℕ → Scan → Scan
unfolding push_bit
scan_bit bit s =
    if not s.seen_zero && bit == 1
    then record s { ones = min (s.ones + 1) 255 }
    else if not s.seen_zero
    then record s { seen_zero = true }
    else push_bit bit s

-- `for idx in idx..idx + left`
unfoldable pub scan : List ℕ → ℕ → ℕ → Scan → Scan
unfolding scan_bit bit_at
scan inv zero idx s = s
scan inv (suc left) idx s = scan inv left (idx + 1) (scan_bit (bit_at inv idx) s)

abbrev pub no_bits : Scan
no_bits = record { temp = []; bits = 0; nbits = 0; seen_zero = false; ones = 0 }

unfoldable pub addr_for_key : List ℕ → List ℕ
unfolding scan invert
addr_for_key public_key =
    let s = scan (map invert public_key) key_bits 0 no_bits in
    let addr = set (set (replicate addr_len 0) 0 node_prefix) prefix_len s.ones in
    let n = min (length s.temp) addr_payload_len in copy_into addr (prefix_len + 1) (take n s.temp)

unfoldable pub subnet_for_key : List ℕ → List ℕ
unfolding addr_for_key
subnet_for_key public_key =
    let snet = take subnet_len (addr_for_key public_key) in
    set snet 0 (bit_or (get_or snet 0 0) subnet_bit)

-- `for idx in idx..idx + left { key[idx / 8] |= 0x80 >> (idx % 8); }`
unfoldable pub put_ones : ℕ → ℕ → List ℕ → List ℕ
put_ones zero idx key = key
put_ones (suc left) idx key =
    put_ones left (idx + 1)
      (set key (idx / 8) (bit_or (get_or key (idx / 8) 0) (0x80 / 2 ^ (idx % 8))))

-- The bits of the address into the key from `key_idx` on, until the key ends.
unfoldable pub put_payload : List ℕ → ℕ → ℕ → ℕ → List ℕ → List ℕ
unfolding bit_at
put_payload addr zero idx key_idx key = key
put_payload addr (suc left) idx key_idx key =
    if leb 32 (key_idx / 8)
    then key
    else put_payload addr left (idx + 1) (key_idx + 1) (
        set key (key_idx / 8)
          (bit_or (get_or key (key_idx / 8) 0) (bit_at addr idx * 2 ^ (7 - key_idx % 8) % 256)))

unfoldable pub key_for_addr : List ℕ → List ℕ
unfolding put_ones put_payload invert
key_for_addr addr =
    let ones = min (get_or addr prefix_len 0) key_bits in
    let key = put_ones ones 0 (replicate 32 0) in
    map invert
      (put_payload addr (8 * addr_len - payload_bit_offset) payload_bit_offset (ones + 1) key)

unfoldable pub key_for_subnet : List ℕ → List ℕ
unfolding key_for_addr
key_for_subnet snet = key_for_addr (copy_into (replicate addr_len 0) 0 snet)

unfoldable pub is_valid : List ℕ → Bool
is_valid addr = get_or addr 0 0 == node_prefix

-- Of addresses, and `Subnet::is_valid`.
unfoldable pub is_subnet : List ℕ → Bool
is_subnet addr = get_or addr 0 0 == bit_or node_prefix subnet_bit

unfoldable pub lookup_key_for_addr : List ℕ → List ℕ
unfolding key_for_addr key_for_subnet is_subnet
lookup_key_for_addr addr =
    if is_subnet addr then key_for_subnet (take subnet_len addr) else key_for_addr addr
