-- ===== src/Examples/Ksm.antt =====
-- The controller of same-page merging on small inputs (crates/ksm).
use nemor.Base.{
  ℕ, ◌≤◌, ◌<◌, ◌≡◌, ◌↔◌, ◌&&◌, refl, Bool, true, false, none, some, List, [], ◌∷◌, arith, Any,
  sort_by, take,
}
use nemor.Base.Float.{whole}
use nemor.Base.Chars.{Chars, codes, strip_prefix, lines, split_whitespace, trim}
use nemor.Base.Chars.Numbers.{parse_radix}
use nemor.Ksm.Smaps.{AddressRange, SmapsArea, is_valid, parse_smaps_areas}
use nemor.Ksm.Scope.{cover_loop, fully_covered_with, verify_exact_mergeable_scope}
use nemor.Ksm.Scope.Coverage.{Holds}
use nemor.Ksm.Scope.Completeness.{covers, fully_covered_with-eq-covers}
use nemor.Ksm.Scope.Exact.{exact_scope-mergeable_iff}
use nemor.Ksm.BasePages.{verify_base_page_scope}
use nemor.Ksm.BasePages.Passed.{IsBaseArea, verify_base_page_scope-IsBaseArea}
use nemor.Ksm.Counters.{parse_smaps_ksm_bytes, parse_process_ksm_stat}
use nemor.Ksm.Counters.RoundTrip.{smaps_text, parse_smaps_ksm_bytes-smaps_text}
use nemor.Ksm.Protocol.{Call, audit, opt_in, start, unmerge, default, stage, perform}
use nemor.Ksm.Protocol.Order.{accepted, run, count_up, is_recorded, accepted-count_up, run-recorded}
use nemor.Ksm.Backend.{
  has_prefix, KsmSnapshot, KsmTransaction, SimulatedBackend, simulated, recover_owned,
  nemor_owned_validation,
}
use nemor.Ksm.Backend.Recovery.{IsRecovered, repaired, recover_owned_twice}
use nemor.Ksm.Types.{StableProcessIdentity, KsmProcessMetrics}
use nemor.Ksm.Observation.{
  Owned, start_ticks_of, ProcEntry, contents, ExternalKsmInspection,
  inspect_external_ksm_processes_owned,
}
use nemor.Ksm.Observation.Entry.{IsCandidate, IsLive}
use nemor.Ksm.Observation.Listed.{IsListed, IsMarked, inspect_external-IsListed}
use nemor.Ksm.Controller.{ControllerInput, ControllerState}
use nemor.Ksm.Controller.Verdict

abbrev range : ℕ → ℕ → AddressRange
range a b = record { start = a; end = b }

-- Two areas of one page each, the first one mergeable.
abbrev two_areas : Chars
two_areas =
    codes
      "1000-2000 rw-p\nKernelPageSize: 4 kB\nMMUPageSize: 4 kB\nAnonHugePages: 0 kB\nVmFlags: rd mg nh\n2000-3000 rw-p\nKernelPageSize: 4 kB\nMMUPageSize: 4 kB\nAnonHugePages: 0 kB\nVmFlags: rd nh\n"

abbrev duplicate : AddressRange
duplicate = range 4096 8192

abbrev control : AddressRange
control = range 8192 12288

exact_scope-mergeable_iff_example :
    Any (Holds (λ area. area.mergeable) 5000) (parse_smaps_areas two_areas)
    ↔ (4096 ≤ 5000) × (5000 < 8192)
unfolding verify_exact_mergeable_scope parse_smaps_areas sort_by cover_loop
exact_scope-mergeable_iff_example =
    exact_scope-mergeable_iff two_areas duplicate control 5000 refl (omega arith)

abbrev nohuge : SmapsArea → Bool
nohuge area = area.no_hugepage

fully_covered_with-eq-covers_example :
    fully_covered_with (range 4096 4100) (parse_smaps_areas two_areas) nohuge
    ≡ (is_valid (range 4096 4100) && covers 4 4096 (parse_smaps_areas two_areas))
unfolding parse_smaps_areas
fully_covered_with-eq-covers_example =
    fully_covered_with-eq-covers (range 4096 4100) (parse_smaps_areas two_areas) nohuge refl

verify_base_page_scope-IsBaseArea_example :
    Any (IsBaseArea 4096 true 9000) (parse_smaps_areas two_areas)
unfolding verify_base_page_scope parse_smaps_areas sort_by
verify_base_page_scope-IsBaseArea_example =
    verify_base_page_scope-IsBaseArea two_areas control 4096 true 9000 refl (omega arith)
      (omega arith)

abbrev printed : List (ℕ × ℕ)
printed = (19, 4) ∷ ((0, 12) ∷ [])

parse_smaps_ksm_bytes-smaps_text_example : parse_smaps_ksm_bytes (smaps_text printed) ≡ some 16384
parse_smaps_ksm_bytes-smaps_text_example =
    parse_smaps_ksm_bytes-smaps_text printed (omega arith) refl

-- Calls in the wrong order, and one that comes twice.
abbrev calls : List Call
calls = start ∷ (audit "d" "p" "t" ∷ (opt_in ∷ (opt_in ∷ (start ∷ (unmerge ∷ [])))))

accepted-count_up_example :
    (accepted calls default ≡ count_up 0 (stage (run calls default).state))
    × (stage (run calls default).state ≤ 5)
accepted-count_up_example = accepted-count_up calls

run-recorded_example : is_recorded (run calls default) ≡ true
unfolding run stage perform
run-recorded_example = run-recorded calls (omega arith)

abbrev baseline : KsmSnapshot
baseline = record { run = 1; pages_to_scan = 100; sleep_millisecs = 20; preserve_only = [] }

abbrev transaction : KsmTransaction
transaction = record {
  transaction_id = "nemor-validation-1";
  decision_id = "d";
  plan_id = "p";
  ownership = nemor_owned_validation;
  baseline = baseline;
  child_identities = [];
  scanner_started = true;
  recovered = false;
}

-- The second write of the restoration fails.
abbrev failing : SimulatedBackend
failing = record {
  current = record { run = 1; pages_to_scan = 500; sleep_millisecs = 5; preserve_only = [] };
  mutation_count = 0;
  fail_after = some 1;
}

recover_owned_twice_example :
    IsRecovered transaction
      (recover_owned simulated (repaired (recover_owned simulated (transaction, failing)).0)).0
unfolding has_prefix strip_prefix
recover_owned_twice_example = recover_owned_twice transaction failing (refl, refl, refl) refl

abbrev statistics : StableProcessIdentity
statistics = record { pid = 7; start_ticks = 0; stable_key = "redacted" }

abbrev consumer : ProcEntry
consumer = record {
  name = codes "7";
  path = "/proc/7";
  stat = none;
  ksm_stat = contents (codes "ksm_mergeable: yes\n");
  smaps = contents (codes "KSM: 4 kB\n");
}

abbrev listed : KsmProcessMetrics
listed = record {
  identity = statistics;
  profile = none;
  ksm_rmap_items = none;
  ksm_zero_pages = none;
  ksm_merging_pages = none;
  ksm_process_profit = none;
  ksm_merge_any = none;
  ksm_mergeable = some true;
  current_mapped_ksm_bytes = some 4096;
  residual_accounting = false;
  rss_bytes = none;
  pss_bytes = none;
}

abbrev found : ExternalKsmInspection
found = record { live_consumers = listed ∷ []; residual_processes = []; inspected_processes = 1 }

-- The owned process had the same pid, and another start time.
abbrev owned : Owned
owned = (7, some 5) ∷ []

inspect_external-IsListed_example :
    (IsListed listed found.live_consumers
      ↔ Any (IsCandidate owned listed) (take 4096 (consumer ∷ [])) × IsLive listed)
    × (IsListed listed found.residual_processes
        ↔ IsMarked (λ x. Any (IsCandidate owned x) (take 4096 (consumer ∷ []))) listed)
unfolding inspect_external_ksm_processes_owned parse_radix parse_process_ksm_stat lines
    split_whitespace trim start_ticks_of parse_smaps_ksm_bytes strip_prefix
inspect_external-IsListed_example =
    inspect_external-IsListed "/proc" (consumer ∷ []) owned found listed refl

abbrev input : ℕ → ControllerInput ℕ
input seconds = record {
  elapsed_seconds = seconds;
  full_scans = 1;
  evaluation = record {
    ksmd_mean_cpu_percent = 0;
    ksmd_cpu_seconds_per_gib_saved = none;
    pages_scanned_per_saved_page = none;
    net_positive = true;
  };
  cpu_budget_percent = 1;
  cow_rate = 0;
  maximum_cow_rate = 64;
  cooldown_active = false;
}

run-verdict_example :
    Verdict.run whole ControllerState.unknown (input 0 ∷ (input 3 ∷ []))
    ≡ ControllerState.profitable
run-verdict_example = Verdict.run-verdict whole (input 0) (input 3 ∷ [])
