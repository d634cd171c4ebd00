-- ===== src/Tiering/Plan/Pays.antt =====
-- What the two tests of the recommendation say of the evidence (crates/tiering/src/plan.rs,
-- boot_validation_v6.rs).
use nemor.Base.{
  ℕ, ◌*◌, ◌≤◌, ◌≡◌, refl, Bool, true, false, not, ◌&&◌, Option, none, some, is_some, is_some_and,
  str_eq, str_eq_iff, arith,
}
use nemor.Base.Float.{Float}
use nemor.Tiering.Boot.Types.{StorageProfile}
use nemor.Tiering.Boot.Equality.{profile_eq}
use nemor.Tiering.Boot.Interface.{SameHostZramBaselineEvidence, SameHostProfileEvidence}
use nemor.Tiering.Boot.Evidence.{matching_same_host_evidence}
use nemor.Tiering.Plan.{
  BenchmarkEvidence, RecommendationInput, compares, latency_ok, is_benefit,
  comparison_policy_passes, baseline_ready,
}

-- An option that passes a test holds a value that does.
pub is_some_and-some :
    {A : Type 0} (o : Option A) (p : A → Bool)
    → is_some_and o p ≡ true
    → (a : A) × (o ≡ some a) × (p a ≡ true)
is_some_and-some none p h = absurd (cc)
is_some_and-some (some a) p h = (a, refl, h)

-- The evidence is of one validation on one host, for the profile, real, without a failure, and within
-- the write budget as attributed to the physical device.
abbrev pub IsSameHost :
    SameHostZramBaselineEvidence → SameHostProfileEvidence → StorageProfile → Type 0
IsSameHost b p profile =
    (profile_eq p.profile profile ≡ true)
    × (b.validation_id ≡ p.validation_id)
    × (b.source_commit ≡ p.source_commit)
    × (b.environment_sha256 ≡ p.environment_sha256)
    × (b.topology_sha256 ≡ p.topology_sha256)
    × (b.workload_sha256 ≡ p.workload_sha256)
    × (b.real ≡ true)
    × (p.real ≡ true)
    × (b.oom ≡ false)
    × (p.oom ≡ false)
    × (b.safety_failure ≡ false)
    × (p.safety_failure ≡ false)
    × (p.write_budget_passed ≡ true)
    × (p.backing_write_confidence ≡ "bounded-physical-device-attributed")

both : (a b : Bool) → (a && b) ≡ true → (a ≡ true) × (b ≡ true)
both true b h = (refl, h)
both false b h = absurd (cc)

not-true : (a : Bool) → not a ≡ true → a ≡ false
not-true true h = absurd (cc)
not-true false h = refl

matching-IsSameHost :
    (b : SameHostZramBaselineEvidence) (p : SameHostProfileEvidence) (profile : StorageProfile)
    → matching_same_host_evidence b p profile ≡ true
    → IsSameHost b p profile
unfolding matching_same_host_evidence
matching-IsSameHost b p profile h =
    let (names, rest) = both _ _ h in
    let (_, names1) = both (str_eq b.schema "tiering-zram-baseline-v4") _ names in
    let (_, names2) = both (str_eq p.schema "tiering-profile-benchmark-v6") _ names1 in
    let (same, id) =
      both (profile_eq p.profile profile) (str_eq b.validation_id p.validation_id) names2 in
    let (hashes, rest1) = both _ _ rest in
    let (commit, hashes1) = both (str_eq b.source_commit p.source_commit) _ hashes in
    let (_, hashes2) = both (str_eq b.source_state_sha256 p.source_state_sha256) _ hashes1 in
    let (environment, hashes3) =
      both (str_eq b.environment_sha256 p.environment_sha256) _ hashes2 in
    let (topology, workload) =
      both (str_eq b.topology_sha256 p.topology_sha256) (str_eq b.workload_sha256 p.workload_sha256)
        hashes3 in
    let (flags, rest2) = both _ _ rest1 in
    let (real, flags1) = both b.real _ flags in
    let (real', flags2) = both p.real _ flags1 in
    let (oom, flags3) = both (not b.oom) _ flags2 in
    let (oom', safe) = both (not p.oom) (not b.safety_failure) flags3 in
    let (ends, rest3) = both _ _ rest2 in
    let (safe', _) = both (not p.safety_failure) _ ends in
    let (writes, rest4) = both _ _ rest3 in
    let (budget, _) = both p.write_budget_passed _ writes in
    let (_, protocols) = both _ _ rest4 in
    let (_, protocols1) =
      both (str_eq b.workload_protocol "tiering-bounded-workload-v3") _ protocols in
    let (_, confidence) =
      both (str_eq p.workload_protocol "tiering-bounded-workload-v3") _ protocols1 in
    (
      same,
      (str_eq_iff b.validation_id p.validation_id).0 id,
      (str_eq_iff b.source_commit p.source_commit).0 commit,
      (str_eq_iff b.environment_sha256 p.environment_sha256).0 environment,
      (str_eq_iff b.topology_sha256 p.topology_sha256).0 topology,
      (str_eq_iff b.workload_sha256 p.workload_sha256).0 workload,
      real,
      real',
      not-true b.oom oom,
      not-true p.oom oom',
      not-true b.safety_failure safe,
      not-true p.safety_failure safe',
      budget,
      (str_eq_iff p.backing_write_confidence "bounded-physical-device-attributed").0 confidence,
    )

-- The host has evidence for its own profile.
abbrev pub HasEvidence : {F : Type 0} → RecommendationInput F → Type 0
HasEvidence i =
    (b : SameHostZramBaselineEvidence) × (p : SameHostProfileEvidence) × (profile : StorageProfile)
    × (i.same_host_zram_baseline ≡ some b)
    × (i.same_host_profile_evidence ≡ some p)
    × (i.storage.profile ≡ some profile)
    × IsSameHost b p profile

module _ {F : Type 0} (fl : Float F) where
  -- Real measurements without a shortage of memory, of which the second takes at most a tenth longer
  -- for a swap, compresses better, and knows what it wrote.
  abbrev pub Pays : BenchmarkEvidence F → BenchmarkEvidence F → Type 0
  Pays base profile =
      (base.real ≡ true)
      × (profile.real ≡ true)
      × (base.oom ≡ false)
      × (profile.oom ≡ false)
      × ((a : ℕ) × (b : ℕ) × (base.swap_latency_ns ≡ some a)
          × (profile.swap_latency_ns ≡ some b)
          × (b * 100 ≤ a * 110))
      × ((r : F) × (q : F) × (base.compression_ratio ≡ some r)
          × (profile.compression_ratio ≡ some q)
          × (fl.lt r q ≡ true))
      × ((n : ℕ) × (profile.backing_write_bytes ≡ some n))

  latency_ok-bound :
      (x y : Option ℕ)
      → latency_ok fl x y ≡ true
      → (a : ℕ) × (b : ℕ) × (x ≡ some a) × (y ≡ some b) × (b * 100 ≤ a * 110)
  latency_ok-bound none y h = absurd (cc)
  latency_ok-bound (some a) none h = absurd (cc)
  latency_ok-bound (some a) (some b) h = (a, b, refl, refl, ground arith)

  is_benefit-better :
      (x y : Option F)
      → is_benefit fl x y ≡ true
      → (r : F) × (q : F) × (x ≡ some r) × (y ≡ some q) × (fl.lt r q ≡ true)
  is_benefit-better none y h = absurd (cc)
  is_benefit-better (some r) none h = absurd (cc)
  is_benefit-better (some r) (some q) h = (r, q, refl, refl, h)

  is_some-known : (o : Option ℕ) → is_some o ≡ true → (n : ℕ) × (o ≡ some n)
  is_some-known none h = absurd (cc)
  is_some-known (some n) h = (n, refl)

  compares-Pays :
      (base profile : BenchmarkEvidence F) → compares fl base profile ≡ true → Pays base profile
  compares-Pays base profile h = (
    ground arith,
    ground arith,
    ground arith,
    ground arith,
    latency_ok-bound base.swap_latency_ns profile.swap_latency_ns (ground arith),
    is_benefit-better base.compression_ratio profile.compression_ratio (ground arith),
    is_some-known profile.backing_write_bytes (ground arith),
  )

  -- Both measurements are there, and the second pays.
  abbrev pub HasGain : RecommendationInput F → Type 0
  HasGain i =
      (base : BenchmarkEvidence F) × (profile : BenchmarkEvidence F) × (i.zram_benchmark
        ≡ some base)
      × (i.zswap_benchmark ≡ some profile)
      × Pays base profile

  pub comparison-HasGain :
      (i : RecommendationInput F) → comparison_policy_passes fl i ≡ true → HasGain i
  unfolding comparison_policy_passes
  comparison-HasGain i h =
      let (base, e, k) = is_some_and-some i.zram_benchmark _ h in
      let (profile, e', k') = is_some_and-some i.zswap_benchmark (compares fl base) k in
      (base, profile, e, e', compares-Pays base profile k')

  pub baseline_ready-HasEvidence :
      (i : RecommendationInput F) → baseline_ready fl i ≡ true → HasEvidence i
  unfolding baseline_ready
  baseline_ready-HasEvidence i h =
      let (b, e, k) = is_some_and-some i.same_host_zram_baseline _ h in
      let (p, e', k') = is_some_and-some i.same_host_profile_evidence _ k in
      let (profile, e'', m) =
        is_some_and-some i.storage.profile (matching_same_host_evidence b p) k' in
      (b, p, profile, e, e', e'', matching-IsSameHost b p profile m)
