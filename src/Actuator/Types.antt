-- ===== src/Actuator/Types.antt =====
-- The data of the actuator (crates/actuator/src/lib.rs). A path is its text; a set of PIDs is a list.
use nemor.Base.{ℕ, Bool, ◌&&◌, String, ◌+++◌, Option, List}
use nemor.Base.Integer.{ℤ}
use nemor.Classifier.Model.{ProcessClassification}

abbrev pub foreground_group : String
foreground_group = "nemor-foreground.slice"

abbrev pub background_group : String
background_group = "nemor-background.slice"

pub record CgroupCapabilities : Type 0 where
  pub cgroup_v2 : Bool
  pub memory_controller : Bool
  pub hierarchy : String
  pub writable : Bool
  pub memory_low : Bool
  pub memory_high : Bool
  pub attach : Bool

unfoldable pub mutation_ready : CgroupCapabilities → Bool
mutation_ready c =
    c.cgroup_v2
    && (c.memory_controller && (c.writable && (c.memory_low && (c.memory_high && c.attach))))

pub data BackendKind : Type 0 where
  linux_cgroupfs simulated : BackendKind

pub record GroupState : Type 0 where
  pub name : String
  pub path : String
  pub owned_by_nemor : Bool
  pub memory_low : Option ℕ
  pub memory_high : Option ℕ
  pub pids : List ℕ

pub record RequestedProperties : Type 0 where
  pub memory_low : Option ℕ
  pub memory_high : Option ℕ

pub record CgroupPlan : Type 0 where
  pub process_catalog_id : ℤ
  pub identity : String
  pub pid : ℕ
  pub start_time_ticks : ℕ
  pub source_group : String
  pub target_group : String
  pub properties : RequestedProperties
  pub reason : String
  pub allowed : Bool
  pub block_reasons : List String
  pub dry_run : Bool

pub record PlanInput (F : Type 0) : Type 0 where
  pub process_catalog_id : ℤ
  pub identity : String
  pub current_start_time_ticks : Option ℕ
  pub source_group : String
  pub classification : ProcessClassification F
  pub total_ram_bytes : ℕ
  pub protected_workload_bytes : ℕ

pub record MutationSnapshot : Type 0 where
  pub id : ℕ
  pub session_id : ℤ
  pub timestamp_ns : ℤ
  pub process_catalog_id : ℤ
  pub identity : String
  pub pid : ℕ
  pub start_time_ticks : ℕ
  pub original_group : String
  pub target_group : String
  pub original_properties : RequestedProperties
  pub requested_properties : RequestedProperties
  pub reason : String
  pub applied : Bool
  pub verified : Bool
  pub rolled_back : Bool
  pub last_error : Option String

-- The text of an `io::Error` is what its `Display` gives.
pub data ActuatorError : Type 0 where
  capability blocked : String → ActuatorError
  backend : (operation source : String) → ActuatorError
  verification persistence : String → ActuatorError

-- The `Display` that `thiserror` derives.
unfoldable pub error_text : ActuatorError → String
error_text (capability s) = "cgroup capability unavailable: " +++ s
error_text (blocked s) = "mutation is blocked: " +++ s
error_text (backend operation source) =
    "backend operation `" +++ (operation +++ ("` failed: " +++ source))
error_text (verification s) = "verification failed: " +++ s
error_text (persistence s) = "snapshot persistence failed: " +++ s
