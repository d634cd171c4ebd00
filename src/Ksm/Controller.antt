-- ===== src/Ksm/Controller.antt =====
-- CPU windows, profit and the controller (crates/ksm/src/lib.rs).
pub mod Verdict
use nemor.Base.{
  ℕ, Bool, true, false, not, ◌&&◌, ◌||◌, Option, none, some, ◌/◌, ltb, leb, ◌==◌, is_none_or,
  if◌then◌else◌,
}
use nemor.Base.Float.{Float}
use nemor.Base.Integer.{ℤ, pos, ltb_ℤ}
use nemor.Ksm.Types.{page_size}

pub record CpuWindowMeasurement (F : Type 0) : Type 0 where
  pub window_seconds : F
  pub cpu_tick_delta : ℕ
  pub cpu_seconds_delta : F
  pub cpu_percent : F
  pub measurement_resolution_percent : F
  pub resolution_valid : Bool
  pub budget_exceeded : Option Bool

pub record ProfitSample (F : Type 0) : Type 0 where
  pub wall_seconds : F
  pub ksmd_cpu_seconds : F
  pub pages_scanned_delta : ℕ
  pub saved_bytes : ℕ
  pub process_profit_bytes : Option ℤ
  pub system_profit_bytes : Option ℤ

pub record ProfitEvaluation (F : Type 0) : Type 0 where
  pub ksmd_mean_cpu_percent : F
  pub ksmd_cpu_seconds_per_gib_saved : Option F
  pub pages_scanned_per_saved_page : Option F
  pub net_positive : Bool

pub data ControllerState : Type 0 where
  unknown evaluating profitable inefficient cooldown : ControllerState

pub record ControllerInput (F : Type 0) : Type 0 where
  pub elapsed_seconds : ℕ
  pub full_scans : ℕ
  pub evaluation : ProfitEvaluation F
  pub cpu_budget_percent : F
  pub cow_rate : ℕ
  pub maximum_cow_rate : ℕ
  pub cooldown_active : Bool

-- `condition.then(|| value)`.
abbrev pub then_some {ℓ} : {A : Type ℓ} → Bool → A → Option A
then_some true a = some a
then_some false a = none

module _ {F : Type 0} (fl : Float F) where
  abbrev validation_cpu_budget_percent : F
  validation_cpu_budget_percent = fl.literal 1 1

  abbrev validation_cpu_resolution_percent : F
  validation_cpu_resolution_percent = fl.literal 1 4

  unfoldable pub minimum_cpu_budget_window_seconds : ℕ → Option F
  minimum_cpu_budget_window_seconds clk_tck =
      then_some (ltb 0 clk_tck)
        (fl.div (fl.literal 100 1) (fl.mul (fl.of_nat clk_tck) validation_cpu_resolution_percent))

  unfoldable pub measure_cpu_window : ℕ → F → ℕ → Option (CpuWindowMeasurement F)
  measure_cpu_window tick_delta window clk_tck =
      let tick = fl.div (fl.literal 1 1) (fl.of_nat clk_tck) in
      let seconds = fl.mul (fl.of_nat tick_delta) tick in
      let percent = fl.mul (fl.div seconds window) (fl.literal 100 1) in
      let resolution = fl.div (fl.mul (fl.literal 100 1) tick) window in
      let valid = fl.le resolution validation_cpu_resolution_percent in
      if (clk_tck == 0) || (not (fl.is_finite window) || fl.le window (fl.literal 0 1))
      then none
      else some (record {
        window_seconds = window;
        cpu_tick_delta = tick_delta;
        cpu_seconds_delta = seconds;
        cpu_percent = percent;
        measurement_resolution_percent = resolution;
        resolution_valid = valid;
        budget_exceeded = then_some valid (fl.lt validation_cpu_budget_percent percent);
      })

  unfoldable pub evaluate_profit : ProfitSample F → ℕ → ProfitEvaluation F
  evaluate_profit s meaningful =
      let saved_pages = s.saved_bytes / page_size in
      record {
        ksmd_mean_cpu_percent =
            if fl.lt (fl.literal 0 1) s.wall_seconds
            then fl.mul (fl.div s.ksmd_cpu_seconds s.wall_seconds) (fl.literal 100 1)
            else fl.literal 0 1;
        ksmd_cpu_seconds_per_gib_saved =
            then_some (leb meaningful s.saved_bytes && ltb 0 s.saved_bytes)
              (fl.div s.ksmd_cpu_seconds (fl.div (fl.of_nat s.saved_bytes) (fl.of_nat 1073741824)));
        pages_scanned_per_saved_page =
            then_some (ltb 0 saved_pages)
              (fl.div (fl.of_nat s.pages_scanned_delta) (fl.of_nat saved_pages));
        net_positive =
            leb meaningful s.saved_bytes
            && (is_none_or s.process_profit_bytes (λ profit. ltb_ℤ (pos 0) profit)
                && is_none_or s.system_profit_bytes (λ profit. ltb_ℤ (pos 0) profit));
      }

  -- The guards of the arms for `Evaluating`.
  abbrev pub too_early : ControllerInput F → Bool
  too_early i = ltb i.elapsed_seconds 2 || (i.full_scans == 0)

  abbrev pub does_not_pay : ControllerInput F → Bool
  does_not_pay i =
      fl.lt i.cpu_budget_percent i.evaluation.ksmd_mean_cpu_percent
      || (ltb i.maximum_cow_rate i.cow_rate || not i.evaluation.net_positive)

  unfoldable pub next_state : ControllerState → ControllerInput F → ControllerState
  next_state unknown i = evaluating
  next_state evaluating i =
      if too_early i then evaluating else if does_not_pay i then inefficient else profitable
  next_state profitable i = profitable
  next_state inefficient i = inefficient
  next_state cooldown i = cooldown

  unfoldable pub controller_transition : ControllerState → ControllerInput F → ControllerState
  unfolding next_state
  controller_transition state i = if i.cooldown_active then cooldown else next_state state i
