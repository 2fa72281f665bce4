-- ===== src/Links/Rates.antt =====
-- The byte rates of `update_rates`.
use roots.Prelude.{some, ℕ, ◌+◌, ◌≡◌, refl, ◌<◌, ◌^◌, ◌%◌, arith, true, false}
use roots.Prelude.Words.{add64, sub64-add64}
use roots.Links.{LinkEntry, LinkSet, sample, is_due, update_rates, rate_window}

module _ {S : Type 0} where
  -- A link with u64 counters that has moved `sent` and `received` bytes since it was sampled
  -- reports just these at the next sample, modulo the width of the counters.
  pub sample_rates :
      (e : LinkEntry S) (received sent : ℕ)
      → e.rx < 2 ^ 64
      → e.tx < 2 ^ 64
      → let moved = record (sample e) { rx = add64 e.rx received; tx = add64 e.tx sent } in
        ((sample moved).rxrate ≡ received % 2 ^ 64) × ((sample moved).txrate ≡ sent % 2 ^ 64)
  unfolding sample
  sample_rates e received sent h k = (sub64-add64 e.rx received h, sub64-add64 e.tx sent k)

  -- Less than a window after an update that was due, another changes nothing.
  pub update_rates_window :
      (s : LinkSet S) (now later : ℕ)
      → is_due now s.sampled_at ≡ true
      → later < now + rate_window
      → update_rates (update_rates s now) later ≡ update_rates s now
  unfolding update_rates
  update_rates_window s now later due soon =
      let early : is_due later (some now) ≡ false = unfold is_due in ground arith in
      rw (due, early) refl
