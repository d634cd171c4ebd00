-- ===== src/Tiering/Metrics.antt =====
-- Writes to a block device, and their budget (crates/tiering/src/metrics.rs).
use nemor.Base.{
  ℕ, ◌-◌, Bool, not, ◌&&◌, ◌||◌, String, Option, none, some, List, [], ◌∷◌, ◌==◌, ltb, leb, filter,
  push_if, is_empty, checked_mul, saturating_add, if◌then◌else◌, Result, ok, err,
}
use nemor.Base.Chars.{Chars, split_whitespace}
use nemor.Base.Chars.Numbers.{parse_u64}
use nemor.Base.Float.{Float}

pub record BlockStat : Type 0 where
  pub reads_completed : ℕ
  pub sectors_read : ℕ
  pub writes_completed : ℕ
  pub sectors_written : ℕ
  pub write_ticks_ms : ℕ
  pub io_ticks_ms : ℕ

pub record BlockIoDelta (F : Type 0) : Type 0 where
  pub interval_ns : ℕ
  pub writes_completed : ℕ
  pub write_sectors : ℕ
  pub write_bytes : ℕ
  pub write_iops : F
  pub write_throughput_bytes_sec : F
  pub write_ticks_ms : ℕ
  pub io_ticks_ms : ℕ

pub record WriteSample : Type 0 where
  pub timestamp_ns : ℕ
  pub bytes : ℕ
  pub attributable : Bool

pub record WriteBudget : Type 0 where
  pub max_mib_per_second : ℕ
  pub daily_budget_gib : ℕ

pub record BudgetDecision (F : Type 0) : Type 0 where
  pub allowed : Bool
  pub instantaneous_mib_per_second : F
  pub rolling_minute_mib_per_second : F
  pub rolling_hour_gib : F
  pub daily_gib : F
  pub annual_tb : F
  pub reasons : List String

pub record TbEstimate (F : Type 0) : Type 0 where
  pub measurement_seconds : F
  pub bytes_per_day : F
  pub gib_per_day : F
  pub decimal_tb_per_year : F
  pub rated_tbw : Option F
  pub endurance_percent_per_year : Option F
  pub source : String
  pub confidence : String
  pub attributable : Bool

-- The first value that is no number is an error, before the number of fields is looked at.
unfoldable pub stat_fields : List Chars → Option (List ℕ)
stat_fields [] = some []
stat_fields (word ∷ words) = both (parse_u64 word) (stat_fields words)
  where
    both : Option ℕ → Option (List ℕ) → Option (List ℕ)
    both none rest = none
    both (some n) none = none
    both (some n) (some ns) = some (n ∷ ns)

unfoldable pub stat_of : Option (List ℕ) → Result String BlockStat
stat_of none = err "invalid block stat value"
stat_of (some (f0 ∷ (f1 ∷ (f2 ∷ (f3 ∷ (f4 ∷ (f5 ∷ (f6 ∷ (f7 ∷ (f8 ∷ (f9 ∷ (f10 ∷ rest)))))))))))) =
    ok (record {
      reads_completed = f0;
      sectors_read = f2;
      writes_completed = f4;
      sectors_written = f6;
      write_ticks_ms = f7;
      io_ticks_ms = f9;
    })
stat_of (some _) = err "block stat requires at least eleven fields"

unfoldable pub parse_block_stat : Chars → Result String BlockStat
unfolding stat_fields stat_of
parse_block_stat input = stat_of (stat_fields (split_whitespace input))

module _ {F : Type 0} (fl : Float F) where
  abbrev delta_of : BlockStat → BlockStat → ℕ → Option ℕ → Option (BlockIoDelta F)
  delta_of current previous interval_ns none = none
  delta_of current previous interval_ns (some bytes) =
      let writes = current.writes_completed - previous.writes_completed in
      let seconds = fl.div (fl.of_nat interval_ns) (fl.literal 1000000000 1) in
      some (record {
        interval_ns = interval_ns;
        writes_completed = writes;
        write_sectors = current.sectors_written - previous.sectors_written;
        write_bytes = bytes;
        write_iops = fl.div (fl.of_nat writes) seconds;
        write_throughput_bytes_sec = fl.div (fl.of_nat bytes) seconds;
        write_ticks_ms = current.write_ticks_ms - previous.write_ticks_ms;
        io_ticks_ms = current.io_ticks_ms - previous.io_ticks_ms;
      })

  unfoldable pub delta : BlockStat → BlockStat → ℕ → Option (BlockIoDelta F)
  delta current previous interval_ns =
      if (interval_ns == 0)
        || (ltb current.writes_completed previous.writes_completed
            || (ltb current.sectors_written previous.sectors_written
                || (ltb current.write_ticks_ms previous.write_ticks_ms
                    || ltb current.io_ticks_ms previous.io_ticks_ms)))
      then none
      else delta_of current previous interval_ns
          (checked_mul (current.sectors_written - previous.sectors_written) 512)

  -- The bytes written in the last so many nanoseconds, with saturation.
  abbrev pub total_bytes : ℕ → List WriteSample → ℕ
  total_bytes acc [] = acc
  total_bytes acc (sample ∷ samples) = total_bytes (saturating_add acc sample.bytes) samples

  unfoldable pub window_bytes : List WriteSample → ℕ → ℕ → ℕ
  window_bytes samples now_ns window_ns =
      total_bytes 0
        (filter (λ (sample : WriteSample). leb (now_ns - sample.timestamp_ns) window_ns) samples)

  unfoldable pub evaluate : WriteBudget → List WriteSample → ℕ → BudgetDecision F
  unfolding window_bytes
  evaluate budget samples now_ns =
      let bytes = window_bytes samples now_ns in
      let day = fl.of_nat (bytes 86400000000000) in
      let mib = fl.literal 1048576 1 in
      let gib = fl.literal 1073741824 1 in
      let instantaneous = fl.div (fl.of_nat (bytes 1000000000)) mib in
      let rolling_minute = fl.div (fl.div (fl.of_nat (bytes 60000000000)) mib) (fl.literal 60 1) in
      let daily = fl.div day gib in
      let limit = fl.of_nat budget.max_mib_per_second in
      let reasons =
        push_if (fl.lt (fl.of_nat budget.daily_budget_gib) daily) "daily_write_budget_exceeded" (
          push_if (fl.lt limit rolling_minute) "rolling_minute_write_budget_exceeded"
            (push_if (fl.lt limit instantaneous) "instantaneous_write_budget_exceeded" [])) in
      record {
        allowed = is_empty reasons;
        instantaneous_mib_per_second = instantaneous;
        rolling_minute_mib_per_second = rolling_minute;
        rolling_hour_gib = fl.div (fl.of_nat (bytes 3600000000000)) gib;
        daily_gib = daily;
        annual_tb = fl.div (fl.mul day (fl.literal 365 1)) (fl.literal 1000000000000 1);
        reasons = reasons;
      }

  abbrev percent_of : F → Option F → Option F
  percent_of per_year none = none
  percent_of per_year (some value) =
      if fl.is_finite value && fl.lt (fl.literal 0 1) value
      then some (fl.mul (fl.div per_year value) (fl.literal 100 1))
      else none

  unfoldable pub estimate_tbw : ℕ → F → Option F → String → Bool → Option (TbEstimate F)
  estimate_tbw bytes measurement_seconds rated_tbw source attributable =
      let bytes_per_day =
        fl.div (fl.mul (fl.of_nat bytes) (fl.literal 86400 1)) measurement_seconds in
      let per_year =
        fl.div (fl.mul bytes_per_day (fl.literal 365 1)) (fl.literal 1000000000000 1) in
      if (bytes == 0)
        || (not (fl.is_finite measurement_seconds) || fl.le measurement_seconds (fl.literal 0 1))
      then none
      else some (record {
        measurement_seconds = measurement_seconds;
        bytes_per_day = bytes_per_day;
        gib_per_day = fl.div bytes_per_day (fl.literal 1073741824 1);
        decimal_tb_per_year = per_year;
        rated_tbw = rated_tbw;
        endurance_percent_per_year = percent_of per_year rated_tbw;
        source = source;
        confidence = if attributable then "bounded_attributable" else "host_wide_noisy";
        attributable = attributable;
      })
