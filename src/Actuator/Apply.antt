-- ===== src/Actuator/Apply.antt =====
-- The application of one plan, its rollback, and recovery (crates/actuator/src/lib.rs).
pub mod Checks
pub mod Readback
use Prim.Native.Char.{code}
use text.Mathlib.Text.{starts_with}
use nemor.Base.{
  ℕ, Bool, true, false, not, ◌&&◌, ◌||◌, String, Option, none, some, List, [], ◌∷◌, any, is_empty,
  leb, ◌==◌, opt_eq, is_some, join, str_eq, Result, ok, err, if◌then◌else◌,
}
use nemor.Base.Integer.{ℤ}
use nemor.Base.Proc.{Proc, ◌>>=◌, ◌>>◌, pure, fail, query, catch, need, refuse, modify, when}
use nemor.Actuator.Types.{
  BackendKind, GroupState, RequestedProperties, CgroupPlan, MutationSnapshot, ActuatorError,
  blocked, capability, verification, error_text, mutation_ready, foreground_group, background_group,
}
use nemor.Actuator.Interface.{CgroupBackend, SnapshotStore}

-- `is_ascii_alphanumeric() || b"._-".contains(&byte)`.
is_name_byte : ℕ → Bool
is_name_byte c =
    (leb 48 c && leb c 57)
    || ((leb 65 c && leb c 90) || ((leb 97 c && leb c 122) || (c == 46 || (c == 95 || c == 45))))

all_name_bytes : String → Bool
unfolding is_name_byte
all_name_bytes String.[] = true
all_name_bytes (String.◌∷◌ c s) = is_name_byte (code c) && all_name_bytes s

ends_with : String → String → Bool
ends_with String.[] suffix = str_eq String.[] suffix
ends_with (String.◌∷◌ c s) suffix = str_eq (String.◌∷◌ c s) suffix || ends_with s suffix

unfoldable pub is_managed_name : String → Bool
unfolding all_name_bytes ends_with
is_managed_name name =
    (str_eq name foreground_group || str_eq name background_group)
    || ((starts_with name "nemor-test-" || starts_with name "nemor-validation-")
        && (ends_with name ".scope" && all_name_bytes name))

abbrev pub contains : List ℕ → ℕ → Bool
contains pids pid = any (λ p. p == pid) pids

-- The three mutable things that the functions are given: backend, store and snapshot.
pub record Work (B S : Type 0) : Type 0 where
  pub backend : B
  pub store : S
  pub snapshot : MutationSnapshot

abbrev pub Step : Type 0 → Type 0 → Type 0 → Type 0
Step B S A = Proc (Work B S) ActuatorError A

module _ {B S : Type 0} (backend : CgroupBackend B) (store : SnapshotStore S) where
  abbrev pub on_backend : {A : Type 0} → Proc B ActuatorError A → Step B S A
  on_backend m w = let r = m w.backend in (record w { backend = r.0 }, r.1)

  abbrev pub on_store : {A : Type 0} → Proc S ActuatorError A → Step B S A
  on_store m w = let r = m w.store in (record w { store = r.0 }, r.1)

  abbrev pub ask : {A : Type 0} → (B → Result ActuatorError A) → Step B S A
  ask f = query (λ w. f w.backend)

  -- `store.update(&snapshot)`.
  abbrev pub save : Step B S (Unit {0})
  save w = on_store (store.update w.snapshot) w

  abbrev pub set_snapshot : (MutationSnapshot → MutationSnapshot) → Step B S (Unit {0})
  set_snapshot f = modify (λ w. record w { snapshot = f w.snapshot })

  -- The process is put back if it still is the one of the snapshot.
  unfoldable pub restore_placement : MutationSnapshot → Step B S (Unit {0})
  restore_placement x = do
    start ← ask (backend.process_start_time x.pid)
    when (opt_eq start (some x.start_time_ticks)) (do
      group ← ask (backend.process_group x.pid)
      when (is_some group) (do
        original ← ask (backend.inspect_group x.original_group)
        refuse (not (is_some original))
            (blocked "original group disappeared; placement left untouched")
        on_backend (backend.attach_pid x.original_group x.pid)))

  -- The target group, where it exists, gets its properties back, and is removed if it is empty.
  unfoldable pub restore_group : MutationSnapshot → Step B S (Unit {0})
  restore_group x = do
    target ← ask (backend.inspect_group x.target_group)
    when (is_some target) (do
      on_backend (backend.set_properties x.target_group x.original_properties)
      on_backend (backend.cleanup_empty_owned_group x.target_group)
      left ← ask (backend.inspect_group x.target_group)
      when (not (is_some left)) (on_store (store.remove_managed_group x.target_group)))

  undo : MutationSnapshot → Step B S (Unit {0})
  undo x = do
    refuse (not (is_managed_name x.target_group)) (blocked "refusing rollback of non-Nemor group")
    restore_placement x
    restore_group x
    set_snapshot (λ y. record y { rolled_back = true })
    save

  unfoldable pub rollback_one : Step B S (Unit {0})
  unfolding undo
  rollback_one w = elim w.snapshot.rolled_back [ true ↦ (w, ok tt) | false ↦ undo w.snapshot w ]

  -- The handler that stands three times in `apply_one`.
  unfoldable pub abandon : {A : Type 0} → ActuatorError → Step B S A
  abandon error = do
    set_snapshot (λ y. record y { last_error = some (error_text error) })
    save
    rollback_one
    fail error

  -- What `apply_one` reads and refuses before it changes anything: nothing for a dry run, and
  -- otherwise the snapshot that it starts from.
  unfoldable pub prepare : ℤ → ℤ → CgroupPlan → B → Result ActuatorError (Option MutationSnapshot)
  prepare session_id timestamp_ns plan b =
      let steps : Proc B ActuatorError (Option MutationSnapshot) = do
        refuse (not plan.allowed) (blocked (join "," plan.block_reasons))
        refuse (not (is_managed_name plan.target_group)) (blocked "target is not Nemor-owned")
        capabilities ← query backend.capabilities
        refuse (not (mutation_ready capabilities))
            (capability "complete writable cgroup v2 memory interface required")
        start ← query (backend.process_start_time plan.pid)
        refuse (not (opt_eq start (some plan.start_time_ticks))) (blocked "stale process identity")
        group ← query (backend.process_group plan.pid)
        original_group ← need group (blocked "process terminated")
        state ← query (backend.inspect_group plan.target_group)
        pure (
            some (record {
              id = 0;
              session_id = session_id;
              timestamp_ns = timestamp_ns;
              process_catalog_id = plan.process_catalog_id;
              identity = plan.identity;
              pid = plan.pid;
              start_time_ticks = plan.start_time_ticks;
              original_group = original_group;
              target_group = plan.target_group;
              original_properties = elim state [
                | none ↦ record { memory_low = none; memory_high = none }
                | some s ↦ record { memory_low = s.memory_low; memory_high = s.memory_high }
              ];
              requested_properties = plan.properties;
              reason = plan.reason;
              applied = false;
              verified = false;
              rolled_back = false;
              last_error = none;
            }))
      in if plan.dry_run then ok none else (steps b).1

  unfoldable pub create_missing : ℤ → CgroupPlan → Step B S (Unit {0})
  create_missing session_id plan = do
    existing ← ask (backend.inspect_group plan.target_group)
    when (not (is_some existing)) (do
      _ ← on_backend (backend.create_managed_group plan.target_group)
      kind ← query (λ w. ok (backend.kind w.backend))
      on_store (store.record_managed_group plan.target_group session_id kind))

  -- The state of the group has the process and both limits.
  abbrev pub reads_back : CgroupPlan → GroupState → Bool
  reads_back plan state =
      contains state.pids plan.pid
      && (opt_eq state.memory_low plan.properties.memory_low
          && opt_eq state.memory_high plan.properties.memory_high)

  unfoldable pub verify : CgroupPlan → Step B S (Unit {0})
  verify plan = do
    found ← ask (backend.inspect_group plan.target_group)
    state ← need found (verification "target disappeared")
    when (not (reads_back plan state)) (abandon (verification "readback differs from request"))

  -- The writes of `apply_one`, up to the attached process.
  unfoldable pub place : ℤ → CgroupPlan → Step B S (Unit {0})
  place session_id plan = do
    id ← (λ w. on_store (store.persist w.snapshot) w)
    set_snapshot (λ y. record y { id = id })
    create_missing session_id plan
    catch (on_backend (backend.set_properties plan.target_group plan.properties)) abandon
    catch (on_backend (backend.attach_pid plan.target_group plan.pid)) abandon

  unfoldable pub record_applied : Step B S (Unit {0})
  record_applied = do set_snapshot (λ y. record y { applied = true }); save

  unfoldable pub record_verified : Step B S (Unit {0})
  record_verified = do set_snapshot (λ y. record y { verified = true }); save

  -- All that follows the checks of `apply_one`.
  unfoldable pub perform : ℤ → CgroupPlan → Step B S (Unit {0})
  perform session_id plan =
      place session_id plan >> (record_applied >> (verify plan >> record_verified))

  -- The snapshot that the function returns is the one that the steps end with.
  finish :
      Work B S × Result ActuatorError (Unit {0})
      → (B × S) × Result ActuatorError (Option MutationSnapshot)
  finish (w, ok _) = ((w.backend, w.store), ok (some w.snapshot))
  finish (w, err e) = ((w.backend, w.store), err e)

  start_from :
      ℤ
      → CgroupPlan
      → Result ActuatorError (Option MutationSnapshot)
      → Proc (B × S) ActuatorError (Option MutationSnapshot)
  unfolding finish
  start_from session_id plan (err e) w = (w, err e)
  start_from session_id plan (ok none) w = (w, ok none)
  start_from session_id plan (ok (some x)) (b, s) =
      finish (perform session_id plan (record { backend = b; store = s; snapshot = x }))

  unfoldable pub apply_one :
      ℤ → ℤ → CgroupPlan → Proc (B × S) ActuatorError (Option MutationSnapshot)
  unfolding start_from
  apply_one session_id timestamp_ns plan (b, s) =
      start_from session_id plan (prepare session_id timestamp_ns plan b) (b, s)

  rollback_each : List MutationSnapshot → B × S → (B × S) × List (Result ActuatorError (Unit {0}))
  rollback_each [] w = (w, [])
  rollback_each (x ∷ xs) (b, s) =
      let r = rollback_one (record { backend = b; store = s; snapshot = x }) in
      let rest = rollback_each xs (r.0.backend, r.0.store) in (rest.0, r.1 ∷ rest.1)

  unfoldable pub recover : B × S → (B × S) × List (Result ActuatorError (Unit {0}))
  unfolding rollback_each
  recover (b, s) = elim (store.pending s) [
    | ok pending ↦ rollback_each pending (b, s)
    | err error ↦ ((b, s), err error ∷ [])
  ]
