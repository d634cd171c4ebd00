-- ===== src/Ksm/Observation.antt =====
-- The processes outside Nemor that use KSM (crates/ksm/src/lib.rs). The files of a process are
-- arguments, as they are read from `/proc`.
pub mod Reference
pub mod Entry
pub mod Listed
use nemor.Base.{
  ℕ, zero, suc, Bool, true, false, not, ◌&&◌, ◌||◌, String, ◌+++◌, Option, none, some, List, [],
  ◌∷◌, ◌++◌, ltb, ◌==◌, is_empty, is_some_and, unwrap_or, take, if◌then◌else◌, saturating_add,
  Result, ok, err, ◌>>=◌,
}
use nemor.Base.Chars.{Chars, split_whitespace}
use nemor.Base.Chars.Numbers.{parse_u32, parse_u64}
use nemor.Ksm.Types.{KsmError, io, KsmProcessMetrics, StableProcessIdentity}
use nemor.Ksm.Counters.{and_then, parse_process_ksm_stat, parse_smaps_ksm_bytes}

pub data ProcessKsmActivity : Type 0 where
  live_external residual_accounting inactive : ProcessKsmActivity

abbrev pub is_yes : Option Bool → Bool
is_yes o = is_some_and o (λ b. b)

unfoldable pub classify_process_ksm_activity : KsmProcessMetrics → ProcessKsmActivity
classify_process_ksm_activity m =
    if is_yes m.ksm_mergeable
      || (is_yes m.ksm_merge_any || ltb 0 (unwrap_or m.current_mapped_ksm_bytes 0))
    then live_external
    else if ltb 0 (unwrap_or m.ksm_merging_pages 0)
    then residual_accounting
    else inactive

-- The owned processes: a map from a pid to its start time, where that is known.
abbrev pub Owned : Type 0
Owned = List (ℕ × Option ℕ)

abbrev pub owned_start : ℕ → Owned → Option ℕ
owned_start pid [] = none
owned_start pid ((p, start) ∷ rest) = if p == pid then start else owned_start pid rest

abbrev pub same_start : Option ℕ → Option ℕ → Bool
same_start (some expected) (some actual) = expected == actual
same_start _ _ = false

unfoldable pub exact_owned_tuple : Owned → ℕ → Option ℕ → Bool
exact_owned_tuple excluded pid start = same_start (owned_start pid excluded) start

-- `stat.rfind(')')`: the text after the last bracket.
or_here : Bool → Chars → Option Chars → Option Chars
or_here here rest (some tail) = some tail
or_here true rest none = some rest
or_here false rest none = none

unfoldable pub after_last : ℕ → Chars → Option Chars
unfolding or_here
after_last mark [] = none
after_last mark (c ∷ cs) = or_here (c == mark) cs (after_last mark cs)

abbrev pub nth : ℕ → List Chars → Option Chars
nth n [] = none
nth zero (w ∷ ws) = some w
nth (suc n) (w ∷ ws) = nth n ws

unfoldable pub start_ticks_of : Option Chars → Option ℕ
unfolding after_last
start_ticks_of stat = and_then stat λ text.
    and_then (after_last b')' text) λ fields. and_then (nth 19 (split_whitespace fields)) parse_u64

-- What reading a file gives.
pub data FileRead : Type 0 where
  contents : Chars → FileRead
  not_found : FileRead
  failed : String → FileRead

-- An entry of `/proc`: its name, and what its files hold.
pub record ProcEntry : Type 0 where
  pub name : Chars
  pub path : String
  pub stat : Option Chars
  pub ksm_stat : FileRead
  pub smaps : FileRead

pub record ExternalKsmInspection : Type 0 where
  pub live_consumers : List KsmProcessMetrics
  pub residual_processes : List KsmProcessMetrics
  pub inspected_processes : ℕ

-- What the loop makes of an entry.
pub data Seen : Type 0 where
  skipped : Seen
  unreadable : KsmError → Seen
  observed : KsmProcessMetrics → Seen

unfoldable pub measured : ℕ → Option ℕ → Chars → Chars → Seen
measured pid start text smaps =
    let parsed =
      parse_process_ksm_stat text
        (record { pid = pid; start_ticks = unwrap_or start 0; stable_key = "redacted" }) in
    if is_empty smaps
    then skipped
    else observed (record parsed { current_mapped_ksm_bytes = parse_smaps_ksm_bytes smaps })

unfoldable pub see_smaps : ℕ → Option ℕ → String → Chars → FileRead → Seen
unfolding measured
see_smaps pid start path text (contents smaps) = measured pid start text smaps
see_smaps pid start path text not_found = skipped
see_smaps pid start path text (failed error) =
    unreadable (io ("read " +++ path +++ "/smaps: " +++ error))

unfoldable pub see_stat : ℕ → Option ℕ → String → FileRead → FileRead → Seen
unfolding see_smaps
see_stat pid start path (contents text) smaps = see_smaps pid start path text smaps
see_stat pid start path not_found smaps = see_smaps pid start path [] smaps
see_stat pid start path (failed error) smaps =
    unreadable (io ("read " +++ path +++ "/ksm_stat: " +++ error))

unfoldable pub see_pid : Owned → ProcEntry → Option ℕ → Seen
unfolding see_stat exact_owned_tuple
see_pid excluded entry none = skipped
see_pid excluded entry (some pid) =
    let start = start_ticks_of entry.stat in
    if exact_owned_tuple excluded pid start
    then skipped
    else see_stat pid start entry.path entry.ksm_stat entry.smaps

unfoldable pub see : Owned → ProcEntry → Seen
unfolding see_pid
see excluded entry = see_pid excluded entry (parse_u32 entry.name)

unfoldable pub sort_in :
    ProcessKsmActivity → KsmProcessMetrics → ExternalKsmInspection → ExternalKsmInspection
sort_in live_external m found = record found { live_consumers = found.live_consumers ++ (m ∷ []) }
sort_in residual_accounting m found = record found {
  residual_processes = found.residual_processes ++ ((record m { residual_accounting = true }) ∷ []);
}
sort_in inactive m found = found

unfoldable pub count_in : KsmProcessMetrics → ExternalKsmInspection → ExternalKsmInspection
unfolding sort_in classify_process_ksm_activity
count_in m found =
    sort_in (classify_process_ksm_activity m) m
      (record found { inspected_processes = saturating_add found.inspected_processes 1 })

unfoldable pub inspect_step : Seen → ExternalKsmInspection → Result KsmError ExternalKsmInspection
unfolding count_in
inspect_step skipped found = ok found
inspect_step (unreadable e) found = err e
inspect_step (observed m) found = ok (count_in m found)

unfoldable pub inspect_entries :
    Owned → List ProcEntry → ExternalKsmInspection → Result KsmError ExternalKsmInspection
unfolding inspect_step see
inspect_entries excluded [] found = ok found
inspect_entries excluded (entry ∷ entries) found =
    inspect_step (see excluded entry) found >>= inspect_entries excluded entries

abbrev pub nothing_found : ExternalKsmInspection
nothing_found = record { live_consumers = []; residual_processes = []; inspected_processes = 0 }

-- The entries are `none` where the directory cannot be read.
unfoldable pub inspect_external_ksm_processes_owned :
    String → Option (List ProcEntry) → Owned → Result KsmError ExternalKsmInspection
unfolding inspect_entries
inspect_external_ksm_processes_owned root none excluded = err (io ("cannot enumerate " +++ root))
inspect_external_ksm_processes_owned root (some entries) excluded =
    inspect_entries excluded (take 4096 entries) nothing_found

live_or_none : Result KsmError ExternalKsmInspection → List KsmProcessMetrics
live_or_none (ok found) = found.live_consumers
live_or_none (err e) = []

unfoldable pub external_mergeable_processes_owned :
    String → Option (List ProcEntry) → Owned → List KsmProcessMetrics
unfolding live_or_none inspect_external_ksm_processes_owned
external_mergeable_processes_owned root entries excluded =
    live_or_none (inspect_external_ksm_processes_owned root entries excluded)

abbrev without_start : List ℕ → Owned
without_start [] = []
without_start (pid ∷ pids) = (pid, none) ∷ without_start pids

unfoldable pub external_mergeable_processes :
    String → Option (List ProcEntry) → List ℕ → List KsmProcessMetrics
unfolding external_mergeable_processes_owned
external_mergeable_processes root entries excluded =
    external_mergeable_processes_owned root entries (without_start excluded)
