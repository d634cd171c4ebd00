-- ===== src/Examples/Apply.antt =====
-- The plan of a process applied to a small backend (crates/actuator): one process, and one group,
-- which is made when it is asked for.
use nemor.Base.{
  ℕ, ◌≡◌, ◌⊎◌, refl, true, String, Option, none, some, [], ◌∷◌, str_eq, if◌then◌else◌, ok, err,
}
use nemor.Base.Integer.{pos}
use nemor.Actuator.Types.{
  simulated, GroupState, RequestedProperties, MutationSnapshot, ActuatorError, persistence,
  mutation_ready, background_group,
}
use nemor.Actuator.Interface.{CgroupBackend, SnapshotStore}
use nemor.Actuator.Apply.{
  apply_one, prepare, perform, place, verify, record_applied, record_verified, create_missing,
  is_managed_name,
}
use nemor.Actuator.Apply.Checks.{IsClear, apply_guarded, persisted_first}
use nemor.Actuator.Apply.Readback.{ReadBack, apply_verified}
use nemor.Actuator.MemoryStore.{
  MemorySnapshotStore, memory_store, empty, persist, update, insert, contains_key,
  record_managed_group, remove_managed_group,
}
use nemor.Examples.Actuator.{indexer_plan, snapshot}

-- The state: the group of the process, and the background group where it exists.
abbrev Sim : Type 0
Sim = String × Option GroupState

abbrev group_named : String → Option GroupState → Option GroupState
group_named name group = if str_eq name background_group then group else none

abbrev with_properties : RequestedProperties → Option GroupState → Option GroupState
with_properties p none = none
with_properties p (some g) =
    some (record g { memory_low = p.memory_low; memory_high = p.memory_high })

abbrev with_pid : ℕ → Option GroupState → Option GroupState
with_pid pid none = none
with_pid pid (some g) = some (record g { pids = pid ∷ g.pids })

abbrev new_group : String → GroupState
new_group name = record {
  name = name;
  path = name;
  owned_by_nemor = true;
  memory_low = none;
  memory_high = none;
  pids = [];
}

abbrev sim : CgroupBackend Sim
sim = record {
  kind = λ _. simulated;
  capabilities = λ _. ok (record {
    cgroup_v2 = true;
    memory_controller = true;
    hierarchy = "/sys/fs/cgroup";
    writable = true;
    memory_low = true;
    memory_high = true;
    attach = true;
  });
  inspect_group = λ name b. ok (group_named name b.1);
  create_managed_group = λ name b. ((b.0, some (new_group name)), ok (new_group name));
  set_properties = λ name p b. ((b.0, with_properties p b.1), ok tt);
  attach_pid = λ name pid b. ((name, with_pid pid b.1), ok tt);
  process_start_time = λ pid b. ok (some 77);
  process_group = λ pid b. ok (some b.0);
  cleanup_empty_owned_group = λ name b. (b, ok tt);
}

abbrev before : Sim
before = ("user.slice", none)

abbrev after : Sim
after = (
  background_group,
  some (record (new_group background_group) { memory_high = some 500; pids = 42 ∷ [] }),
)

abbrev applied : MutationSnapshot
applied = record snapshot { id = 1; applied = true; verified = true }

abbrev stored : MemorySnapshotStore
stored = record {
  next_id = 1;
  snapshots = (1, applied) ∷ [];
  managed_groups = background_group ∷ [];
}

apply_verified_example :
    ReadBack sim memory_store indexer_plan after × (true ≡ true) × (true ≡ true)
unfolding apply_one prepare perform place verify record_applied record_verified create_missing
    is_managed_name mutation_ready memory_store empty persist update insert contains_key
    record_managed_group
apply_verified_example =
    apply_verified sim memory_store (pos 1) (pos 9) indexer_plan before empty {x = applied}
      {c = after} {t = stored} refl

apply_guarded_example :
    (((apply_one sim memory_store (pos 1) (pos 9) indexer_plan (before, empty)).0 ≡ (before, empty))
      × (((apply_one sim memory_store (pos 1) (pos 9) indexer_plan (before, empty)).1 ≡ ok none)
          ⊎ ((e : ActuatorError) × ((apply_one sim memory_store
                  (pos 1)
                  (pos 9)
                  indexer_plan
                  (before, empty)).1
                ≡ err e))))
    ⊎ IsClear sim memory_store indexer_plan before
apply_guarded_example = apply_guarded sim memory_store (pos 1) (pos 9) indexer_plan before empty

-- A store that has no room.
abbrev full : SnapshotStore MemorySnapshotStore
full = record {
  persist = λ x s. (s, err (persistence "full"));
  update = update;
  pending = λ s. ok [];
  record_managed_group = record_managed_group;
  remove_managed_group = remove_managed_group;
}

persisted_first_example :
    ((apply_one sim full (pos 1) (pos 9) indexer_plan (before, empty)).0.0 ≡ before)
    × ((apply_one sim full (pos 1) (pos 9) indexer_plan (before, empty)).1
        ≡ err (persistence "full"))
unfolding prepare is_managed_name mutation_ready
persisted_first_example =
    persisted_first sim full (pos 1) (pos 9) indexer_plan before empty {x = snapshot}
      {e = persistence "full"} refl refl
