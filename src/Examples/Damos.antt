-- ===== src/Examples/Damos.antt =====
-- A cold zone of sixteen pages between a hot and a warm one (crates/damos, crates/damon).
use nemor.Base.{◌≢◌, refl, true, some, [], ◌∷◌, All}
use nemor.Damon.Ranges.{AddressRange, overlap}
use nemor.Damos.Types.{DamosBeforeApplyEvent}
use nemor.Damos.Fence.{
  AddressFence, matching_allow, is_external, violates, check_candidates, validate_shadow_candidates,
}
use nemor.Damos.Fence.Candidates.{IsFenced, shadow_candidates-IsFenced}

abbrev pub hot : AddressRange
hot = record { start = 0; end = 65536 }

abbrev pub cold : AddressRange
cold = record { start = 65536; end = 131072 }

abbrev pub warm : AddressRange
warm = record { start = 131072; end = 196608 }

abbrev pub fence : AddressFence
fence = record {
  range = cold;
  layer = "core";
  filter_type = "addr";
  api = matching_allow;
  matching = true;
  allow = some true;
}

abbrev pub candidate : DamosBeforeApplyEvent
candidate = record {
  timestamp_ns = 10;
  context_idx = 0;
  scheme_idx = 0;
  target_idx = 0;
  nr_regions = 3;
  range = record { start = 69632; end = 81920 };
  size = 12288;
  nr_accesses = 0;
  age = 5;
}

shadow_candidates-IsFenced_example :
    ((candidate ∷ []) ≢ []) × All (IsFenced hot warm cold 3) (candidate ∷ [])
unfolding validate_shadow_candidates check_candidates violates is_external overlap
shadow_candidates-IsFenced_example =
    shadow_candidates-IsFenced (candidate ∷ []) hot warm cold 3 refl
