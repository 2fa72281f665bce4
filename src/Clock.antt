-- ===== src/Clock.antt =====
-- core/src/clock.rs: instants as 64-bit counts of nanoseconds. A duration is its count of
-- nanoseconds, which may not fit into 64 bits.
use roots.Prelude.{ℕ, ◌+◌, ◌-◌, ◌≤◌, min, ltb, Option, some, none, if◌then◌else◌, ◌≡◌, arith}
use roots.Prelude.Words.{max64}

pub record Instant : Type 0 where
  pub nanos : ℕ

abbrev pub from_nanos : ℕ → Instant
from_nanos n = record { nanos = n }

abbrev pub epoch : Instant
epoch = from_nanos 0

unfoldable pub as_nanos : Instant → ℕ
as_nanos t = t.nanos

unfoldable pub from_since_epoch : ℕ → Instant
from_since_epoch d = from_nanos (min d max64)

unfoldable pub saturating_add : Instant → ℕ → Instant
saturating_add t d = from_nanos (min (t.nanos + min d max64) max64)

-- Subtraction stops at 0.
unfoldable pub saturating_sub : Instant → ℕ → Instant
saturating_sub t d = from_nanos (t.nanos - min d max64)

unfoldable pub ago_exact : Instant → ℕ → Option Instant
ago_exact t d =
    if ltb t.nanos (min d max64) then none else some (from_nanos (t.nanos - min d max64))

-- Subtraction stops at 0.
unfoldable pub duration_since : Instant → Instant → ℕ
duration_since t earlier = t.nanos - earlier.nanos

unfoldable pub elapsed_since : Instant → Instant → ℕ
unfolding duration_since
elapsed_since t earlier = duration_since t earlier

-- What has passed between an instant and a duration after it, until the count is full.
passed_since :
    (t : Instant) (d : ℕ)
    → t.nanos ≤ max64
    → duration_since (saturating_add t d) t ≡ min d (max64 - t.nanos)
unfolding duration_since saturating_add
passed_since t d fits = omega arith

-- Going back by what was added gives the instant back, while the count is not full.
ago_exact-add :
    (t : Instant) (d : ℕ) → t.nanos + d ≤ max64 → ago_exact (saturating_add t d) d ≡ some t
unfolding ago_exact saturating_add
ago_exact-add t d fits = ground arith
