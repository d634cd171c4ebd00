-- ===== src/Ksm/Observation/Reference.antt =====
-- The inspection against a plain description: the observed processes, by their activity
-- (crates/ksm/src/lib.rs).
use nemor.Base.{
  ◌≡◌, refl, ◌∙◌, Bool, true, false, String, some, List, [], ◌∷◌, ◌++◌, arith, filter, keep_if,
  take, saturating_add, Result, ◌>>=◌, ok,
}
use mathlib.Core.List.{append_assoc, append-nil}
use nemor.Ksm.Types.{KsmError, KsmProcessMetrics}
use nemor.Ksm.Observation.{
  ProcEntry, Owned, Seen, skipped, unreadable, observed, see, ExternalKsmInspection,
  ProcessKsmActivity, live_external, residual_accounting, inactive, classify_process_ksm_activity,
  sort_in, count_in, inspect_step, inspect_entries, nothing_found,
  inspect_external_ksm_processes_owned,
}

abbrev pub push_seen : Seen → List KsmProcessMetrics → List KsmProcessMetrics
push_seen (observed m) ms = m ∷ ms
push_seen _ ms = ms

-- The processes that are observed, in the order of the entries.
abbrev pub observations : Owned → List ProcEntry → List KsmProcessMetrics
observations excluded [] = []
observations excluded (e ∷ es) = push_seen (see excluded e) (observations excluded es)

abbrev pub is_live : ProcessKsmActivity → Bool
is_live live_external = true
is_live _ = false

abbrev pub is_residual : ProcessKsmActivity → Bool
is_residual residual_accounting = true
is_residual _ = false

abbrev pub live_of : List KsmProcessMetrics → List KsmProcessMetrics
live_of = filter (λ m. is_live (classify_process_ksm_activity m))

abbrev pub mark : KsmProcessMetrics → KsmProcessMetrics
mark m = record m { residual_accounting = true }

abbrev pub residual_of : List KsmProcessMetrics → List KsmProcessMetrics
residual_of [] = []
residual_of (m ∷ ms) =
    keep_if (is_residual (classify_process_ksm_activity m)) (mark m) (residual_of ms)

-- What a list of observations adds to an inspection.
abbrev Adds : ExternalKsmInspection → List KsmProcessMetrics → ExternalKsmInspection → Type 0
Adds before ms r =
    (r.live_consumers ≡ before.live_consumers ++ live_of ms)
    × (r.residual_processes ≡ before.residual_processes ++ residual_of ms)

Adds-nil : (r : ExternalKsmInspection) → Adds r [] r
Adds-nil r = (rw append-nil, rw append-nil)

sort_in-live :
    (a : ProcessKsmActivity) (m : KsmProcessMetrics) (f : ExternalKsmInspection)
    (ms : List KsmProcessMetrics)
    → (sort_in a m f).live_consumers ++ ms ≡ f.live_consumers ++ keep_if (is_live a) m ms
unfolding sort_in
sort_in-live live_external m f ms = append_assoc f.live_consumers (m ∷ []) ms
sort_in-live residual_accounting m f ms = refl
sort_in-live inactive m f ms = refl

sort_in-residual :
    (a : ProcessKsmActivity) (m : KsmProcessMetrics) (f : ExternalKsmInspection)
    (ms : List KsmProcessMetrics)
    → (sort_in a m f).residual_processes ++ ms
      ≡ f.residual_processes ++ keep_if (is_residual a) (mark m) ms
unfolding sort_in
sort_in-residual live_external m f ms = refl
sort_in-residual residual_accounting m f ms = append_assoc f.residual_processes (mark m ∷ []) ms
sort_in-residual inactive m f ms = refl

count_in-Adds :
    (m : KsmProcessMetrics) (before r : ExternalKsmInspection) (ms : List KsmProcessMetrics)
    → Adds (count_in m before) ms r
    → Adds before (m ∷ ms) r
unfolding count_in
count_in-Adds m before r ms h =
    let activity = classify_process_ksm_activity m in
    let counted : ExternalKsmInspection = record before {
      inspected_processes = saturating_add before.inspected_processes 1;
    } in
    (
      h.0 ∙ sort_in-live activity m counted (live_of ms),
      h.1 ∙ sort_in-residual activity m counted (residual_of ms),
    )

-- One entry, by what is seen of it.
step-Adds :
    (s : Seen) (before r : ExternalKsmInspection) (ms : List KsmProcessMetrics)
    (next : ExternalKsmInspection → Result KsmError ExternalKsmInspection)
    → ((f : ExternalKsmInspection) → next f ≡ ok r → Adds f ms r)
    → (inspect_step s before >>= next) ≡ ok r
    → Adds before (push_seen s ms) r
unfolding inspect_step
step-Adds skipped before r ms next ih h = ih before h
step-Adds (unreadable e) before r ms next ih h = ground arith
step-Adds (observed m) before r ms next ih h =
    count_in-Adds m before r ms (ih (count_in m before) h)

inspect_entries-Adds :
    (excluded : Owned) (es : List ProcEntry) (before r : ExternalKsmInspection)
    → inspect_entries excluded es before ≡ ok r
    → Adds before (observations excluded es) r
unfolding inspect_entries
inspect_entries-Adds excluded [] before r h =
    let e : before ≡ r = ground arith in rw (← e) (Adds-nil before)
inspect_entries-Adds excluded (e ∷ es) before r h =
    step-Adds (see excluded e) before r (observations excluded es) (inspect_entries excluded es)
      (λ f k. inspect_entries-Adds excluded es f r k) h

-- An inspection that succeeds lists exactly the observed processes that are live, and those with
-- residual accounting, among the first 4096 entries, in their order.
pub inspect_external-observations :
    (root : String) (entries : List ProcEntry) (excluded : Owned) (r : ExternalKsmInspection)
    → inspect_external_ksm_processes_owned root (some entries) excluded ≡ ok r
    → (r.live_consumers ≡ live_of (observations excluded (take 4096 entries)))
      × (r.residual_processes ≡ residual_of (observations excluded (take 4096 entries)))
unfolding inspect_external_ksm_processes_owned
inspect_external-observations root entries excluded r h =
    inspect_entries-Adds excluded (take 4096 entries) nothing_found r h
