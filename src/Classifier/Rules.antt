-- ===== src/Classifier/Rules.antt =====
-- The rules of the workload, each of which makes at most two candidates
-- (crates/classifier/src/workload.rs).
use nemor.Base.{
  true, not, ◌&&◌, ◌||◌, String, ◌+++◌, Option, none, some, List, [], ◌∷◌, length, is_empty, any,
  all, filter, leb, unwrap_or, decimal, if◌then◌else◌,
}
use nemor.Base.Float.{Float}
use nemor.Common.Config.{ClassificationConfig, PressureConfig}
use nemor.Collector.System.{SystemSample}
use nemor.Classifier.Model.{is_foreground, WorkloadClass, ProcessClassification}
use nemor.Classifier.Signals.{
  is_game, is_virtualization, is_browser, is_development, is_interactive, is_no_user, is_passive,
  Candidate, rss_sum, candidate, psi_some, psi_full, available_at_or_below, push_candidate, zero_f,
  at_least_of, memory_percent, rss_percent,
}

module _ {F : Type 0} (fl : Float F) where
  -- `memory_percent fl` as text, or the pressure where it is missing.
  pressure_text : String → Option F → Option F → String
  unfolding zero_f
  pressure_text prefix none psi = prefix +++ fl.show (unwrap_or psi (zero_f fl))
  pressure_text prefix (some value) psi = fl.show value +++ "% available"

  unfoldable pub pressure_candidates :
      Option (SystemSample F) → PressureConfig F → List (Candidate F)
  unfolding pressure_text
  pressure_candidates system p =
      let memory = memory_percent fl system in
      let critical =
        candidate WorkloadClass.critical_pressure (fl.of_nat 1) "critical_memory_pressure"
          (pressure_text "PSI full " memory (psi_full system))
          (some (
            "<= "
            +++ (decimal p.critical_available_percent
                +++ ("% or PSI full >= " +++ fl.show p.psi_full_avg10_threshold)))) in
      let tight =
        candidate WorkloadClass.memory_pressure (fl.literal 92 100) "sustained_memory_pressure"
          (pressure_text "PSI some " memory (psi_some system))
          (some (
            "<= "
            +++ (decimal p.pressure_available_percent
                +++ ("% or PSI some >= " +++ fl.show p.psi_some_avg10_threshold)))) in
      push_candidate
        (available_at_or_below system p.pressure_available_percent
          || at_least_of fl (psi_some system) p.psi_some_avg10_threshold)
        tight
        (push_candidate
          (available_at_or_below system p.critical_available_percent
            || at_least_of fl (psi_full system) p.psi_full_avg10_threshold)
          critical [])

  -- `fold(0.0, f64::max)`, from the left.
  fold_max : F → List (ProcessClassification F) → F
  fold_max acc [] = acc
  fold_max acc (p ∷ ps) = fold_max (fl.fmax acc p.confidence) ps

  unfoldable pub game_candidates :
      Option (SystemSample F)
      → List (ProcessClassification F)
      → ClassificationConfig F
      → List (Candidate F)
      → List (Candidate F)
  unfolding fold_max zero_f
  game_candidates system processes c cs =
      let games = filter (λ p. is_game p.category) processes in
      let confidence = fold_max (zero_f fl) games in
      let others =
        rss_percent fl system (rss_sum (filter (λ p. not (is_game p.category)) processes)) in
      if is_empty games
      then cs
      else push_candidate true
          (candidate WorkloadClass.gaming confidence "protected_game_process"
            (decimal (length games) +++ " game process(es)")
            (some "at least one independently confirmed game"))
          (push_candidate (fl.le c.gaming_background_memory_percent others)
            (candidate WorkloadClass.gaming_background_heavy
              (fl.fmax confidence (fl.literal 80 100)) "game_with_heavy_background"
              (fl.show others +++ "% non-game RSS")
              (some (">= " +++ (fl.show c.gaming_background_memory_percent +++ "%"))))
            cs)

  unfoldable pub virtualization_candidates :
      Option (SystemSample F)
      → List (ProcessClassification F)
      → ClassificationConfig F
      → List (Candidate F)
      → List (Candidate F)
  virtualization_candidates system processes c cs =
      let machines = filter (λ p. is_virtualization p.category) processes in
      let percent = rss_percent fl system (rss_sum machines) in
      push_candidate (not (is_empty machines) && fl.le c.virtualization_memory_percent percent)
        (candidate WorkloadClass.virtualization (fl.literal 88 100) "virtual_machine_memory_share"
          (fl.show percent +++ "% VM RSS")
          (some (">= " +++ (fl.show c.virtualization_memory_percent +++ "%"))))
        cs

  unfoldable pub browser_candidates :
      Option (SystemSample F)
      → List (ProcessClassification F)
      → ClassificationConfig F
      → List (Candidate F)
      → List (Candidate F)
  browser_candidates system processes c cs =
      let browsers = filter (λ p. is_browser p.category) processes in
      let percent = rss_percent fl system (rss_sum browsers) in
      push_candidate
        (leb c.browser_heavy_process_count (length browsers)
          && fl.le c.browser_heavy_memory_percent percent)
        (candidate WorkloadClass.browser_heavy (fl.literal 85 100) "browser_processes_and_memory"
          (decimal (length browsers) +++ (" processes, " +++ (fl.show percent +++ "% RSS")))
          (some (
            ">= "
            +++ (decimal c.browser_heavy_process_count
                +++ (" processes and >= "
                    +++ (fl.show c.browser_heavy_memory_percent +++ "% RSS"))))))
        cs

  unfoldable pub development_candidates :
      List (ProcessClassification F) → List (Candidate F) → List (Candidate F)
  development_candidates processes cs =
      let count = length (filter (λ p. is_development p.category) processes) in
      push_candidate (leb 2 count)
        (candidate WorkloadClass.development (fl.literal 82 100) "development_toolset"
          (decimal count +++ " development processes") (some ">= 2 independent development tools"))
        cs

  unfoldable pub desktop_candidates :
      List (ProcessClassification F) → List (Candidate F) → List (Candidate F)
  desktop_candidates processes cs =
      push_candidate
        (any
          (λ p.
            is_interactive p.category
            || (is_foreground p.foreground && not (is_no_user p.category)))
          processes)
        (candidate WorkloadClass.desktop (fl.literal 75 100) "interactive_desktop_process"
          "interactive desktop evidence" none)
        cs

  unfoldable pub idle_candidates :
      List (ProcessClassification F) → List (Candidate F) → List (Candidate F)
  unfolding zero_f
  idle_candidates processes cs =
      push_candidate
        (is_empty processes
          || (not (is_empty processes)
              && all
                  (λ p.
                    is_passive p.category
                    && fl.le (unwrap_or p.sample.cpu_percent (zero_f fl)) (fl.literal 5 10))
                  processes))
        (candidate WorkloadClass.idle (fl.literal 80 100) "demonstrated_inactivity"
          "no active user workload" (some "only idle system/background activity"))
        cs
