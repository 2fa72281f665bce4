-- ===== src/Table/Probe.antt =====
-- The places that a key's probe visits: the slot at each distance from its start.
use native.Mathlib.Nat.{mod-lt, mod-eq_of_lt, mod-add-mod, mod-eq-sub-mod}
use roots.Prelude.{
  ℕ, ◌+◌, ◌-◌, ◌%◌, ◌<◌, ◌≡◌, ap, ◌∙◌, arith, Bool-cases, inl, inr, ltb, ltb→lt, ltb→le,
}
use roots.Table.{Key, probe_start, fnv_write, fnv_offset}

module _ {K : Type 0} (n : ℕ) (key_of : Key K) where
  pub pos : K → ℕ → ℕ
  pos k d = (probe_start n key_of k + d) % n

  probe_start-lt : 0 < n → (k : K) → probe_start n key_of k < n
  unfolding probe_start
  probe_start-lt some_slot k =
      ground (arith, mod-lt (fnv_write fnv_offset (key_of.hash_bytes k)) {m = n} some_slot)

  start_of_none : n ≡ 0 → (k : K) → probe_start n key_of k ≡ 0
  unfolding probe_start
  start_of_none h k = ground arith

  pub pos_start : (k : K) → pos k 0 ≡ probe_start n key_of k
  unfolding pos
  pos_start k =
      let start : ℕ = probe_start n key_of k in
      let e : start + 0 ≡ start = omega arith in
      elim (Bool-cases (ltb 0 n)) [
        | inl room ↦ rw e (mod-eq_of_lt (probe_start-lt (ltb→lt 0 n room) k))
        | inr none ↦ rw (start_of_none (omega (arith, ltb→le 0 n none)) k) (omega arith)
      ]

  pub pos-lt : 0 < n → (k : K) (d : ℕ) → pos k d < n
  unfolding pos
  pos-lt some_slot k d = mod-lt (probe_start n key_of k + d) some_slot

  pub pos_next : (k : K) (d : ℕ) → (pos k d + 1) % n ≡ pos k (d + 1)
  unfolding pos
  pos_next k d = mod-add-mod (probe_start n key_of k + d) n 1 ∙ ap (λ (x : ℕ). x % n) (omega arith)

  -- Every slot is on the probe of every key.
  pub pos_onto : (k : K) (i : ℕ) → i < n → (d : ℕ) × (d < n) × (pos k d ≡ i)
  unfolding pos
  pos_onto k i h =
      let start : ℕ = probe_start n key_of k in
      let below : start < n = probe_start-lt (omega arith) k in
      elim (Bool-cases (ltb i start)) [
        | inl before ↦
            let e : start + (i + n - start) ≡ i + n = omega (arith, ltb→lt i start before) in
            (
              i + n - start,
              omega (arith, ltb→lt i start before),
              rw e (
                  mod-eq-sub-mod {n = i + n} {m = n} (omega arith)
                  ∙ ap (λ (x : ℕ). x % n) (omega arith)
                  ∙ mod-eq_of_lt h),
            )
        | inr after ↦
            let e : start + (i - start) ≡ i = omega (arith, ltb→le i start after) in
            (i - start, omega arith, rw e (mod-eq_of_lt h))
      ]
