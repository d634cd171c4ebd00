-- ===== src/Actuator/Interface.antt =====
-- The traits `CgroupBackend` and `SnapshotStore` (crates/actuator/src/lib.rs). A `&self` method reads
-- the state, a `&mut self` method is a step on it; the state of a backend includes the cgroup tree
-- and the processes that it acts on.
use nemor.Base.{ℕ, String, Option, List, Result}
use nemor.Base.Integer.{ℤ}
use nemor.Base.Proc.{Proc}
use nemor.Actuator.Types.{
  CgroupCapabilities, BackendKind, GroupState, RequestedProperties, MutationSnapshot, ActuatorError,
}

pub record CgroupBackend (B : Type 0) : Type 0 where
  pub kind : B → BackendKind
  pub capabilities : B → Result ActuatorError CgroupCapabilities
  pub inspect_group : String → B → Result ActuatorError (Option GroupState)
  pub create_managed_group : String → Proc B ActuatorError GroupState
  pub set_properties : String → RequestedProperties → Proc B ActuatorError (Unit {0})
  pub attach_pid : String → ℕ → Proc B ActuatorError (Unit {0})
  pub process_start_time : ℕ → B → Result ActuatorError (Option ℕ)
  pub process_group : ℕ → B → Result ActuatorError (Option String)
  pub cleanup_empty_owned_group : String → Proc B ActuatorError (Unit {0})

pub record SnapshotStore (S : Type 0) : Type 0 where
  pub persist : MutationSnapshot → Proc S ActuatorError ℕ
  pub update : MutationSnapshot → Proc S ActuatorError (Unit {0})
  pub pending : S → Result ActuatorError (List MutationSnapshot)
  pub record_managed_group : String → ℤ → BackendKind → Proc S ActuatorError (Unit {0})
  pub remove_managed_group : String → Proc S ActuatorError (Unit {0})
