-- ===== src/Policy/Features/Rates.antt =====
-- When a rate is reported, and which (crates/policy-engine/src/features.rs).
use nemor.Base.{ℕ, ◌-◌, ◌≤◌, ◌≡◌, refl, ◌&&◌, Option, none, some, arith, ltb, leb, if◌then◌else◌}
use nemor.Base.Integer.{pos, i64_max, checked_sub_i64}
use nemor.Base.Float.{Float}
use nemor.Policy.Features.{
  CounterSample, rate, seconds_of, rates_between, no_rates, rates_after, update,
}

module _ {F : Type 0} (fl : Float F) where
  -- The rate of a counter between two samples taken at the times `m` and `n`: none unless both
  -- samples have the counter, the clock moved forward, and the counter did not fall.
  abbrev pub per_second : ℕ → ℕ → Option ℕ → Option ℕ → Option F
  per_second m n none b = none
  per_second m n (some a) none = none
  per_second m n (some a) (some b) =
      if ltb m n && leb a b
      then some (fl.div (fl.of_nat (b - a)) (fl.div (fl.of_nat (n - m)) (fl.of_nat 1_000_000_000)))
      else none

  rate-per_second :
      (m n : ℕ) (a b : Option ℕ)
      → n ≤ i64_max
      → m ≤ i64_max
      → rate fl a b (seconds_of fl (checked_sub_i64 (pos n) (pos m))) ≡ per_second m n a b
  unfolding rate seconds_of
  rate-per_second m n none b h k = refl
  rate-per_second m n (some a) none h k = refl
  rate-per_second m n (some a) (some b) h k = ground arith

  -- The first sample gives no rate; from then on each of the five rates is the one between the
  -- sample before and the current one, and the current one is kept.
  pub update_rates :
      (p c : CounterSample) (m n : ℕ)
      → p.timestamp_ns ≡ pos m
      → c.timestamp_ns ≡ pos n
      → m ≤ i64_max
      → n ≤ i64_max
      → let first = update fl (record { previous = none }) p in
        let second = update fl first.0 c in
        (first.1 ≡ no_rates fl)
        × (second.0.previous ≡ some c)
        × (second.1.swap_in_per_second ≡ per_second m n p.swap_in c.swap_in)
        × (second.1.swap_out_per_second ≡ per_second m n p.swap_out c.swap_out)
        × (second.1.major_faults_per_second ≡ per_second m n p.major_faults c.major_faults)
        × (second.1.pgscan_per_second ≡ per_second m n p.pgscan c.pgscan)
        × (second.1.pgsteal_per_second ≡ per_second m n p.pgsteal c.pgsteal)
  unfolding update rates_after rates_between
  update_rates p c m n e f h k =
      rw (e, f)
        (
          refl,
          refl,
          rate-per_second m n p.swap_in c.swap_in k h,
          rate-per_second m n p.swap_out c.swap_out k h,
          rate-per_second m n p.major_faults c.major_faults k h,
          rate-per_second m n p.pgscan c.pgscan k h,
          rate-per_second m n p.pgsteal c.pgsteal k h,
        )
