-- ===== src/Ksm/Capability.antt =====
-- The capability and the metrics of the running kernel (crates/ksm/src/lib.rs), from what its files
-- hold: the directory's names, and the text of a file where it can be read.
use nemor.Base.{
  ℕ, Bool, false, not, ◌&&◌, ◌||◌, String, Option, none, some, List, [], ◌∷◌, ◌/◌, ◌%◌, ltb, leb,
  ◌==◌, contains_str, is_some, is_some_and, unwrap_or, if◌then◌else◌, map,
}
use nemor.Base.Integer.{ℤ}
use nemor.Base.Chars.{Chars, codes, trim, lines, split_whitespace, strip_prefix}
use nemor.Base.Chars.Numbers.{parse_u64, parse_u32, parse_i64}
use nemor.Ksm.Counters.{and_then, get, parse_vmstat_ksm}

-- The directory `/sys/kernel/mm/ksm`, and what `/proc/self/status` and the metadata of `run` say.
pub record KsmRoot : Type 0 where
  pub is_dir : Bool
  pub names : List String
  pub read : String → Option Chars
  pub run_is_file : Bool
  pub status : Option Chars
  pub run_metadata : Option (ℕ × ℕ)

pub record KsmCapability : Type 0 where
  pub supported : Bool
  pub sysfs_available : Bool
  pub sysfs_readable : Bool
  pub sysfs_writable : Bool
  pub run_supported : Bool
  pub scanner_fields : List (String × Bool)
  pub advisor_fields : List (String × Bool)
  pub metric_fields : List (String × Bool)
  pub process_ksm_stat_available : Bool
  pub madv_mergeable_supported : Option Bool
  pub madv_unmergeable_supported : Option Bool
  pub prctl_memory_merge_supported : Option Bool
  pub existing_run_state : Option ℕ
  pub existing_external_mergeable_processes : ℕ
  pub existing_pages_shared : Option ℕ
  pub existing_pages_sharing : Option ℕ
  pub external_live_ksm_activity : Bool
  pub residual_global_ksm_accounting : Bool
  pub external_ksm_activity : Bool
  pub notes : List String

unfoldable pub read_optional_u64 : KsmRoot → String → Option ℕ
read_optional_u64 root name = and_then (root.read name) λ text. parse_u64 (trim text)

-- `lines().find_map(..)`.
first_uid_line : List Chars → Option Chars
first_uid_line [] = none
first_uid_line (line ∷ rest) = or_later (strip_prefix (codes "Uid:") line) (first_uid_line rest)
  where
    or_later : Option Chars → Option Chars → Option Chars
    or_later (some value) later = some value
    or_later none later = later

abbrev second : List Chars → Option Chars
second (_ ∷ (w ∷ _)) = some w
second _ = none

unfoldable pub effective_uid : Option Chars → Option ℕ
unfolding first_uid_line
effective_uid status = and_then status λ text.
    and_then (first_uid_line (lines text))
      λ value. and_then (second (split_whitespace value)) parse_u32

abbrev has_bit : ℕ → ℕ → Bool
has_bit mode bit = mode / bit % 2 == 1

-- The owner and the mode of the file; 128 is `0o200`, 2 is `0o002`.
unfoldable pub may_write : Option (ℕ × ℕ) → Option ℕ → Bool
may_write none uid = false
may_write (some metadata) none = false
may_write (some (owner, mode)) (some uid) =
    (uid == 0) || (((uid == owner) && has_bit mode 128) || has_bit mode 2)

unfoldable pub path_writable_by_current_user : KsmRoot → Bool
unfolding may_write effective_uid
path_writable_by_current_user root = may_write root.run_metadata (effective_uid root.status)

abbrev as_u8 : ℕ → Option ℕ
as_u8 n = if leb n 255 then some n else none

abbrev pub presence : List String → List String → List (String × Bool)
presence names = map (λ name. (name, contains_str names name))

unfoldable pub inspect_capability : KsmRoot → Bool → KsmCapability
unfolding read_optional_u64 path_writable_by_current_user
inspect_capability root process_stat_available =
    let run = and_then (read_optional_u64 root "run") as_u8 in
    let shared = read_optional_u64 root "pages_shared" in
    let sharing = read_optional_u64 root "pages_sharing" in
    let stopped = is_some_and run (λ value. value == 0) in
    record {
      supported = root.is_dir && contains_str root.names "run";
      sysfs_available = root.is_dir;
      sysfs_readable = root.run_is_file && is_some (root.read "run");
      sysfs_writable = path_writable_by_current_user root;
      run_supported = contains_str root.names "run";
      scanner_fields =
          presence root.names ("pages_to_scan" ∷ "sleep_millisecs" ∷ "smart_scan" ∷ []);
      advisor_fields = presence root.names (
          "advisor_mode" ∷ "advisor_max_cpu" ∷ "advisor_target_scan_time"
          ∷ "advisor_min_pages_to_scan" ∷ "advisor_max_pages_to_scan" ∷ []);
      metric_fields = presence root.names (
          "general_profit" ∷ "pages_scanned" ∷ "pages_shared" ∷ "pages_sharing" ∷ "pages_unshared"
          ∷ "pages_volatile" ∷ "pages_skipped" ∷ "full_scans" ∷ "stable_node_chains"
          ∷ "stable_node_dups" ∷ "ksm_zero_pages" ∷ []);
      process_ksm_stat_available = process_stat_available;
      madv_mergeable_supported = none;
      madv_unmergeable_supported = none;
      prctl_memory_merge_supported = none;
      existing_run_state = run;
      existing_external_mergeable_processes = 0;
      existing_pages_shared = shared;
      existing_pages_sharing = sharing;
      external_live_ksm_activity = false;
      residual_global_ksm_accounting =
          stopped && (ltb 0 (unwrap_or shared 0) || ltb 0 (unwrap_or sharing 0));
      external_ksm_activity = not stopped;
      notes = [];
    }

pub record KsmSystemMetrics : Type 0 where
  pub timestamp_ns : ℕ
  pub run : Option ℕ
  pub pages_to_scan : Option ℕ
  pub sleep_millisecs : Option ℕ
  pub pages_scanned : Option ℕ
  pub pages_shared : Option ℕ
  pub pages_sharing : Option ℕ
  pub pages_unshared : Option ℕ
  pub pages_volatile : Option ℕ
  pub pages_skipped : Option ℕ
  pub full_scans : Option ℕ
  pub ksm_zero_pages : Option ℕ
  pub general_profit : Option ℤ
  pub stable_node_chains : Option ℕ
  pub stable_node_dups : Option ℕ
  pub cow_ksm : Option ℕ
  pub ksm_swpin_copy : Option ℕ
  pub ksmd_cpu_ticks : Option ℕ

unfoldable pub parse_system_metrics : KsmRoot → Chars → ℕ → KsmSystemMetrics
unfolding read_optional_u64 parse_vmstat_ksm
parse_system_metrics root vmstat timestamp_ns =
    let vm = parse_vmstat_ksm vmstat in
    let field = read_optional_u64 root in
    record {
      timestamp_ns = timestamp_ns;
      run = field "run";
      pages_to_scan = field "pages_to_scan";
      sleep_millisecs = field "sleep_millisecs";
      pages_scanned = field "pages_scanned";
      pages_shared = field "pages_shared";
      pages_sharing = field "pages_sharing";
      pages_unshared = field "pages_unshared";
      pages_volatile = field "pages_volatile";
      pages_skipped = field "pages_skipped";
      full_scans = field "full_scans";
      ksm_zero_pages = field "ksm_zero_pages";
      general_profit = and_then (root.read "general_profit") λ text. parse_i64 (trim text);
      stable_node_chains = field "stable_node_chains";
      stable_node_dups = field "stable_node_dups";
      cow_ksm = get (codes "cow_ksm") vm;
      ksm_swpin_copy = get (codes "ksm_swpin_copy") vm;
      ksmd_cpu_ticks = none;
    }
