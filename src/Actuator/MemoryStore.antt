-- ===== src/Actuator/MemoryStore.antt =====
-- `MemorySnapshotStore` (crates/actuator/src/lib.rs). The ordered map is a list in the order of its
-- keys; the set of managed groups, which nothing reads in order, is a list without repetition.
pub mod Pending
use nemor.Base.{
  ℕ, ◌+◌, Bool, true, false, not, ◌&&◌, String, Option, none, some, List, [], ◌∷◌, filter, map, ltb,
  ◌==◌, contains_str, str_eq, is_some, wrapping_add, ok, err, if◌then◌else◌,
}
use nemor.Base.Integer.{ℤ}
use nemor.Base.Proc.{Proc}
use nemor.Actuator.Types.{MutationSnapshot, ActuatorError, BackendKind, persistence}
use nemor.Actuator.Interface.{SnapshotStore}

abbrev pub Entries : Type 0
Entries = List (ℕ × MutationSnapshot)

pub record MemorySnapshotStore : Type 0 where
  pub next_id : ℕ
  pub snapshots : Entries
  pub managed_groups : List String

unfoldable pub empty : MemorySnapshotStore
empty = record { next_id = 0; snapshots = []; managed_groups = [] }

-- `BTreeMap::insert`, which replaces the value of a key that is there.
unfoldable pub insert : ℕ → MutationSnapshot → Entries → Entries
insert k x [] = (k, x) ∷ []
insert k x ((j, y) ∷ rest) =
    if ltb k j
    then (k, x) ∷ (j, y) ∷ rest
    else if k == j
    then (k, x) ∷ rest
    else (j, y) ∷ insert k x rest

unfoldable pub contains_key : ℕ → Entries → Bool
contains_key k [] = false
contains_key k ((j, y) ∷ rest) = if k == j then true else contains_key k rest

-- The counter of the ids has 64 bits.
unfoldable pub persist : MutationSnapshot → Proc MemorySnapshotStore ActuatorError ℕ
persist x s =
    let id = wrapping_add s.next_id 1 in
    (record s { next_id = id; snapshots = insert id (record x { id = id }) s.snapshots }, ok id)

unfoldable pub update : MutationSnapshot → Proc MemorySnapshotStore ActuatorError (Unit {0})
update x s =
    if contains_key x.id s.snapshots
    then (record s { snapshots = insert x.id x s.snapshots }, ok tt)
    else (s, err (persistence "unknown snapshot"))

abbrev pub is_pending : MutationSnapshot → Bool
is_pending x = x.applied && not x.rolled_back

unfoldable pub pending : MemorySnapshotStore → List MutationSnapshot
pending s = filter is_pending (map (λ e. e.1) s.snapshots)

abbrev insert_name : String → List String → List String
insert_name name names = if contains_str names name then names else name ∷ names

unfoldable pub record_managed_group :
    String → ℤ → BackendKind → Proc MemorySnapshotStore ActuatorError (Unit {0})
record_managed_group name session_id backend s =
    (record s { managed_groups = insert_name name s.managed_groups }, ok tt)

unfoldable pub remove_managed_group : String → Proc MemorySnapshotStore ActuatorError (Unit {0})
remove_managed_group name s =
    (record s { managed_groups = filter (λ n. not (str_eq n name)) s.managed_groups }, ok tt)

unfoldable pub memory_store : SnapshotStore MemorySnapshotStore
memory_store = record {
  persist = persist;
  update = update;
  pending = λ s. ok (pending s);
  record_managed_group = record_managed_group;
  remove_managed_group = remove_managed_group;
}
