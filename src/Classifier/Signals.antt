-- ===== src/Classifier/Signals.antt =====
-- What the rules of the workload look at (crates/classifier/src/workload.rs).
use nemor.Base.{
  ℕ, ◌+◌, ◌*◌, ◌%◌, Bool, true, false, String, ◌+++◌, Option, none, some, List, [], ◌∷◌, ◌++◌, ltb,
  leb, is_some_and, unwrap_or, if◌then◌else◌,
}
use nemor.Base.Float.{Float}
use nemor.Collector.System.{SystemSample, PsiSample, PsiLine}
use nemor.Classifier.Model.{ProcessCategory, WorkloadClass, Evidence, ProcessClassification}

-- `Display` of a class.
unfoldable pub class_text : WorkloadClass → String
class_text WorkloadClass.idle = "idle"
class_text WorkloadClass.desktop = "desktop"
class_text WorkloadClass.browser_heavy = "browser_heavy"
class_text WorkloadClass.development = "development"
class_text WorkloadClass.gaming = "gaming"
class_text WorkloadClass.gaming_background_heavy = "gaming_background_heavy"
class_text WorkloadClass.virtualization = "virtualization"
class_text WorkloadClass.memory_pressure = "memory_pressure"
class_text WorkloadClass.critical_pressure = "critical_pressure"

abbrev pub is_game : ProcessCategory → Bool
is_game ProcessCategory.game = true
is_game _ = false

abbrev pub is_virtualization : ProcessCategory → Bool
is_virtualization ProcessCategory.virtualization = true
is_virtualization _ = false

abbrev pub is_browser : ProcessCategory → Bool
is_browser ProcessCategory.browser = true
is_browser _ = false

abbrev pub is_development : ProcessCategory → Bool
is_development ProcessCategory.development = true
is_development _ = false

-- `matches!(category, Desktop | Browser | Development)`.
abbrev pub is_interactive : ProcessCategory → Bool
is_interactive ProcessCategory.desktop = true
is_interactive ProcessCategory.browser = true
is_interactive ProcessCategory.development = true
is_interactive _ = false

-- `matches!(category, System | Critical | Unknown)`.
abbrev pub is_no_user : ProcessCategory → Bool
is_no_user ProcessCategory.system = true
is_no_user ProcessCategory.critical = true
is_no_user ProcessCategory.unknown = true
is_no_user _ = false

-- `matches!(category, System | Critical | Background)`.
abbrev pub is_passive : ProcessCategory → Bool
is_passive ProcessCategory.system = true
is_passive ProcessCategory.critical = true
is_passive ProcessCategory.background = true
is_passive _ = false

pub record Candidate (F : Type 0) : Type 0 where
  pub class : WorkloadClass
  pub confidence : F
  pub evidence : Evidence F

module _ {F : Type 0} where
  -- `filter_map(rss_bytes).sum::<u64>()`, which wraps in a release build.
  unfoldable pub rss_sum : List (ProcessClassification F) → ℕ
  rss_sum [] = 0
  rss_sum (p ∷ ps) = (unwrap_or p.sample.rss_bytes 0 + rss_sum ps) % 18446744073709551616

  unfoldable pub candidate : WorkloadClass → F → String → String → Option String → Candidate F
  unfolding class_text
  candidate class confidence code observed threshold = record {
    class = class;
    confidence = confidence;
    evidence = record {
      code = code;
      description = "deterministic evidence for " +++ class_text class;
      observed = observed;
      threshold = threshold;
      contribution = confidence;
    };
  }

  -- `psi.some.map(|line| line.avg10)` and the same of `full`, where the sample has them.
  avg10 : Option (PsiLine F) → Option F
  avg10 none = none
  avg10 (some line) = some line.avg10

  psi_some_of : Option (PsiSample F) → Option F
  unfolding avg10
  psi_some_of none = none
  psi_some_of (some psi) = avg10 psi.some_line

  psi_full_of : Option (PsiSample F) → Option F
  unfolding avg10
  psi_full_of none = none
  psi_full_of (some psi) = avg10 psi.full_line

  unfoldable pub psi_some : Option (SystemSample F) → Option F
  unfolding psi_some_of
  psi_some none = none
  psi_some (some sample) = psi_some_of sample.psi_memory

  unfoldable pub psi_full : Option (SystemSample F) → Option F
  unfolding psi_full_of
  psi_full none = none
  psi_full (some sample) = psi_full_of sample.psi_memory

  -- The products are computed in 128 bits.
  unfoldable pub available_at_or_below : Option (SystemSample F) → ℕ → Bool
  available_at_or_below system threshold =
      is_some_and system (λ s. leb (s.mem_available_bytes * 100) (s.mem_total_bytes * threshold))

  unfoldable pub push_candidate : Bool → Candidate F → List (Candidate F) → List (Candidate F)
  push_candidate true c cs = cs ++ (c ∷ [])
  push_candidate false c cs = cs

module _ {F : Type 0} (fl : Float F) where
  unfoldable pub zero_f : F
  zero_f = fl.of_nat 0

  -- `value >= threshold` where there is a value.
  abbrev pub at_least_of : Option F → F → Bool
  at_least_of value threshold = is_some_and value (λ v. fl.le threshold v)

  -- A part of the memory in percent, where the sample has a total.
  unfoldable pub share : ℕ → ℕ → F
  share part total = fl.mul (fl.div (fl.of_nat part) (fl.of_nat total)) (fl.of_nat 100)

  unfoldable pub memory_percent : Option (SystemSample F) → Option F
  memory_percent none = none
  memory_percent (some s) =
      if ltb 0 s.mem_total_bytes then some (share s.mem_available_bytes s.mem_total_bytes) else none

  unfoldable pub rss_percent : Option (SystemSample F) → ℕ → F
  unfolding zero_f
  rss_percent none rss = zero_f
  rss_percent (some s) rss = if ltb 0 s.mem_total_bytes then share rss s.mem_total_bytes else zero_f
