-- ===== src/Ksm/Observation/Entry.antt =====
-- Which entry of `/proc` is seen, and with which metrics, said of its files (crates/ksm/src/lib.rs).
use nemor.Base.{
  ℕ, ◌<◌, ◌≡◌, refl, ◌⊎◌, inl, inr, true, false, String, Option, none, some, [], arith, Bool-cases,
  is_empty, unwrap_or,
}
use nemor.Base.Chars.{Chars}
use nemor.Base.Chars.Numbers.{parse_u32}
use nemor.Ksm.Types.{KsmProcessMetrics}
use nemor.Ksm.Counters.{parse_process_ksm_stat, parse_smaps_ksm_bytes}
use nemor.Ksm.Observation.{
  ProcEntry, Owned, owned_start, same_start, exact_owned_tuple, start_ticks_of, FileRead, contents,
  not_found, failed, observed, measured, see_smaps, see_stat, see_pid, see,
}

-- A process that is registered as owned, with the very start time that it has.
abbrev pub IsOwned : Owned → ℕ → Option ℕ → Type 0
IsOwned excluded pid start = (t : ℕ) × (owned_start pid excluded ≡ some t) × (start ≡ some t)

-- The statistics text that counts: the contents, or nothing for a missing file.
abbrev pub Says : FileRead → Chars → Type 0
Says (contents t) text = t ≡ text
Says not_found text = text ≡ []
Says (failed e) text = ⊥

-- The mappings are readable and not empty, and the metrics are those of the two texts.
abbrev pub IsMeasured : ℕ → Option ℕ → FileRead → FileRead → KsmProcessMetrics → Type 0
IsMeasured pid start stat mappings m =
    (text : Chars) × (smaps : Chars) × Says stat text
    × (mappings ≡ contents smaps)
    × (is_empty smaps ≡ false)
    × (m
        ≡ record (parse_process_ksm_stat text
            (record { pid = pid; start_ticks = unwrap_or start 0; stable_key = "redacted" })) {
              current_mapped_ksm_bytes = parse_smaps_ksm_bytes smaps;
            })

-- The entry is a process that is not owned, and has these metrics.
abbrev pub IsCandidate : Owned → KsmProcessMetrics → ProcEntry → Type 0
IsCandidate excluded m e =
    (pid : ℕ) × (parse_u32 e.name ≡ some pid)
    × (¬ (IsOwned excluded pid (start_ticks_of e.stat)))
    × IsMeasured pid (start_ticks_of e.stat) e.ksm_stat e.smaps m

-- The process takes part in KSM now: by its flags, or by its mapped pages.
abbrev pub IsLive : KsmProcessMetrics → Type 0
IsLive m =
    (m.ksm_mergeable ≡ some true)
    ⊎ (m.ksm_merge_any ≡ some true)
    ⊎ (0 < unwrap_or m.current_mapped_ksm_bytes 0)

same_start-some : (a b : Option ℕ) → same_start a b ≡ true → (t : ℕ) × (a ≡ some t) × (b ≡ some t)
same_start-some none b h = absurd (cc)
same_start-some (some x) none h = absurd (cc)
same_start-some (some x) (some y) h = (x, refl, ground arith)

some-same_start : (a b : Option ℕ) (t : ℕ) → a ≡ some t → b ≡ some t → same_start a b ≡ true
some-same_start a b t p q = rw (p, q) (ground arith)

exact_owned_tuple-IsOwned :
    (excluded : Owned) (pid : ℕ) (start : Option ℕ)
    → exact_owned_tuple excluded pid start ≡ true
    → IsOwned excluded pid start
unfolding exact_owned_tuple
exact_owned_tuple-IsOwned excluded pid start h = same_start-some (owned_start pid excluded) start h

IsOwned-exact_owned_tuple :
    (excluded : Owned) (pid : ℕ) (start : Option ℕ)
    → IsOwned excluded pid start
    → exact_owned_tuple excluded pid start ≡ true
unfolding exact_owned_tuple
IsOwned-exact_owned_tuple excluded pid start (t, p, q) =
    some-same_start (owned_start pid excluded) start t p q

measured-IsMeasured :
    (pid : ℕ) (start : Option ℕ) (stat : FileRead) (text smaps : Chars) (m : KsmProcessMetrics)
    → Says stat text
    → measured pid start text smaps ≡ observed m
    → IsMeasured pid start stat (contents smaps) m
unfolding measured
measured-IsMeasured pid start stat text smaps m s h =
    (text, smaps, s, refl, ground arith, ground arith)

see_stat-IsMeasured :
    (pid : ℕ) (start : Option ℕ) (path : String) (stat mappings : FileRead) (m : KsmProcessMetrics)
    → see_stat pid start path stat mappings ≡ observed m
    → IsMeasured pid start stat mappings m
unfolding see_stat see_smaps
see_stat-IsMeasured pid start path (contents t) (contents s) m h =
    measured-IsMeasured pid start (contents t) t s m refl h
see_stat-IsMeasured pid start path not_found (contents s) m h =
    measured-IsMeasured pid start not_found [] s m refl h
see_stat-IsMeasured pid start path (contents t) not_found m h = absurd (cc)
see_stat-IsMeasured pid start path (contents t) (failed e) m h = absurd (cc)
see_stat-IsMeasured pid start path not_found not_found m h = absurd (cc)
see_stat-IsMeasured pid start path not_found (failed e) m h = absurd (cc)
see_stat-IsMeasured pid start path (failed e) mappings m h = absurd (cc)

IsMeasured-see_stat :
    (pid : ℕ) (start : Option ℕ) (path : String) (stat mappings : FileRead) (m : KsmProcessMetrics)
    → IsMeasured pid start stat mappings m
    → see_stat pid start path stat mappings ≡ observed m
unfolding see_stat see_smaps measured
IsMeasured-see_stat pid start path (contents t) mappings m (text, smaps, s, r, n, e) =
    rw (r, s) (rw (n, e) refl)
IsMeasured-see_stat pid start path not_found mappings m (text, smaps, s, r, n, e) =
    rw r (rw (n, e, s) refl)
IsMeasured-see_stat pid start path (failed x) mappings m (text, smaps, s, r, n, e) = absurd s

see_pid-IsCandidate :
    (excluded : Owned) (e : ProcEntry) (m : KsmProcessMetrics) (p : Option ℕ)
    → parse_u32 e.name ≡ p
    → see_pid excluded e p ≡ observed m
    → IsCandidate excluded m e
unfolding see_pid
see_pid-IsCandidate excluded e m none q h = absurd (cc)
see_pid-IsCandidate excluded e m (some pid) q h =
    elim (Bool-cases (exact_owned_tuple excluded pid (start_ticks_of e.stat))) [
      | inl o ↦ absurd (ground arith)
      | inr o ↦ (
        pid,
        q,
        (λ own.
            let o' = IsOwned-exact_owned_tuple excluded pid (start_ticks_of e.stat) own in
            absurd (cc)),
        see_stat-IsMeasured pid (start_ticks_of e.stat) e.path e.ksm_stat e.smaps m (ground arith),
      )
    ]

pub see-IsCandidate :
    (excluded : Owned) (e : ProcEntry) (m : KsmProcessMetrics)
    → see excluded e ≡ observed m
    → IsCandidate excluded m e
unfolding see
see-IsCandidate excluded e m h = see_pid-IsCandidate excluded e m (parse_u32 e.name) refl h

pub IsCandidate-see :
    (excluded : Owned) (e : ProcEntry) (m : KsmProcessMetrics)
    → IsCandidate excluded m e
    → see excluded e ≡ observed m
unfolding see see_pid
IsCandidate-see excluded e m (pid, q, free, k) =
    elim (Bool-cases (exact_owned_tuple excluded pid (start_ticks_of e.stat))) [
      | inl o ↦ absurd (free (exact_owned_tuple-IsOwned excluded pid (start_ticks_of e.stat) o))
      | inr o ↦
          let s = IsMeasured-see_stat pid (start_ticks_of e.stat) e.path e.ksm_stat e.smaps m k in
          ground (arith, q, o, s)
    ]
