-- ===== src/Tiering/Plan/Selection.antt =====
-- When storage is recommended (crates/tiering/src/plan.rs).
use nemor.Base.{
  ℕ, ◌≡◌, refl, sym, Bool, true, false, not, List, [], ◌∷◌, ltb, is_some_and, is_empty, String,
  if◌then◌else◌, arith, ◌⊎◌, Option, some,
}
use nemor.Base.Float.{Float}
use nemor.Tiering.Boot.Types.{StorageProfile}
use nemor.Tiering.Topology.{boot_supported}
use nemor.Tiering.Plan.Pays.{
  is_some_and-some, HasEvidence, HasGain, comparison-HasGain, baseline_ready-HasEvidence,
}
use nemor.Tiering.Plan.{
  RecommendationInput, is_severe, is_zram, zram_reasons, recommend, recommend_backend,
}

-- The chain of the recommendation, its tests as variables.
chain_clear :
    (gaming severe : Bool) (events : ℕ) (budget supported ready compares : Bool)
    (r1 r2 r3 r4 r5 r6 r7 : String) (more : List String)
    → is_empty (
        if gaming
        then r1 ∷ []
        else if severe
        then r2 ∷ []
        else if ltb 0 events
        then r3 ∷ []
        else if not budget
        then r4 ∷ []
        else if not supported
        then r5 ∷ []
        else if not ready
        then r6 ∷ more
        else if not compares
        then r7 ∷ []
        else [])
      ≡ true
    → (gaming ≡ false)
      × (severe ≡ false)
      × (events ≡ 0)
      × (budget ≡ true)
      × (supported ≡ true)
      × (ready ≡ true)
      × (compares ≡ true)
chain_clear gaming severe events budget supported ready compares r1 r2 r3 r4 r5 r6 r7 more h =
    ground arith

supported-profile :
    (o : Option StorageProfile)
    → is_some_and o boot_supported ≡ true
    → (profile : StorageProfile) × (o ≡ some profile)
      × ((profile ≡ StorageProfile.nvme_ssd) ⊎ (profile ≡ StorageProfile.sata_ssd))
supported-profile o h =
    let (profile, e, k) = is_some_and-some o boot_supported h in (profile, e, ground arith)

module _ {F : Type 0} (fl : Float F) where
  no_reasons :
      (i : RecommendationInput F) (reasons : List String)
      → is_zram (recommend fl i reasons).selected ≡ false
      → is_empty reasons ≡ true
  no_reasons i [] h = refl
  no_reasons i (r ∷ rs) h = sym h

  -- Storage is recommended only without a game, severe pressure, a safety event and an exceeded
  -- budget, on an NVMe or SATA disk, with real evidence of one validation on the same host for that
  -- profile, without a failure and within the write budget, and with two real measurements of which
  -- that of the storage compresses better, takes at most a tenth longer for a swap, and has its
  -- written bytes.
  pub recommend_backend-measured :
      (i : RecommendationInput F)
      → is_zram (recommend_backend fl i).selected ≡ false
      → (i.gaming ≡ false)
        × (is_severe i.pressure ≡ false)
        × (i.safety_events ≡ 0)
        × (i.budget.allowed ≡ true)
        × ((profile : StorageProfile) × (i.storage.profile ≡ some profile)
            × ((profile ≡ StorageProfile.nvme_ssd) ⊎ (profile ≡ StorageProfile.sata_ssd)))
        × HasEvidence i
        × HasGain fl i
  unfolding recommend_backend zram_reasons
  recommend_backend-measured i h =
      let (game, severe, events, budget, supported, ready, gain) =
        chain_clear i.gaming (is_severe i.pressure) i.safety_events i.budget.allowed _ _ _ _ _ _ _ _
          _ _ _ (no_reasons i (zram_reasons fl i) h) in
      (
        game,
        severe,
        events,
        budget,
        supported-profile i.storage.profile supported,
        baseline_ready-HasEvidence fl i ready,
        comparison-HasGain fl i gain,
      )
