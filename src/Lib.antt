-- ===== src/Lib.antt =====
-- Nemor: a model of the memory manager's own logic, and what holds of it.
--
-- Nemor watches the memory of a Linux host, classifies processes and workloads, decides on a
-- pressure state, plans actions for it, and carries a few of them out under guards. The parts
-- modelled here, each in the module named for its crate:
-- * Common (crates/common/src/config.rs): the configuration sections that other crates read, and
--   the checks of `Config::validate` on the sections `cgroups` and `pressure`.
-- * Collector (crates/collector/src): the samples of a process and of the system, as data.
-- * Classifier (crates/classifier/src): the classes (Model), the rules that give the workload a class
--   (Signals, Rules, Workload), the stabilizer that publishes a class once it was seen often enough
--   in a row (Stabilize), and these together (Pipeline), with the classification of the processes
--   as an argument.
-- * Actuator (crates/actuator/src/lib.rs): the plan of one cgroup assignment, with its two memory
--   limits (Plan); its application, rollback and recovery (Apply) over a backend and a store given
--   as the records of Interface; and `MemorySnapshotStore` (MemoryStore).
-- * Policy (crates/policy-engine/src): inputs and rates (Features), the state machine (Transition),
--   the actions of each state (Planner), and the engine that puts them together (Engine). The plan
--   carries the plans of Actuator; its inputs carry the classes of Classifier.
-- * Damon (crates/damon/src/lib.rs): address ranges.
-- * Damos (crates/damos/src/lib.rs): who may be reclaimed (Eligibility), where (Fence), how much
--   (Limits), what happened (Residency, Refault), and the recovery of a session (Recovery).
-- * Zram (crates/zram/src): the data of devices and plans (Types), the metrics of a device (Metrics),
--   the plan of a profile (Ranking, Profile), and the transaction that replaces a device over a
--   backend given as a record (Transaction).
-- * Ksm (crates/ksm/src/lib.rs): the parsers of kernel counters and mappings (Counters, Smaps), the
--   checks of address ranges (Scope, BasePages), who may take part (Eligibility), the order of a
--   validation (Protocol), the backend and its recovery (Backend), the processes outside Nemor
--   (Observation), the scanner's plan (Scanner), the controller (Controller) and the capability of
--   the kernel (Capability). What the files hold is an argument.
-- * Tiering (crates/tiering/src): the plan of a swapfile and the transaction that activates it over a
--   backend (Topology, Swapfile, Backend), writes to a device and their budget (Metrics), the plan of
--   a pool and the recommendation of a backend (Inventory, Plan, BootPlan), and, of
--   boot_validation_v6.rs, the validation of a boot configuration: its manifest and observations
--   (Boot/Types, Boot/Observations), its stages (Boot/Stages), its durable transaction (Boot/Ledger),
--   the steps on a transaction beside a backend (Boot/Lifecycle), and the operations
--   (Boot/Initialize, Apply, Operations, PostBoot, Cleanup), over the backend and the serializer of
--   Boot/Interface. The checks of a manifest (Boot/Manifest) are an argument of the operations.
--   Boot/Trace has sequences of operations. There a `BTreeMap` is a list of entries, the latest
--   first, and a path is its text in normal form; the path of a swapfile is a list of components.
-- Base has what they share, Examples runs the models at concrete inputs.
--
-- A struct is a record and an enum a data type with the names of the source; a method that changes
-- `self` returns the new state beside its result, and the functions of the actuator, of zram and of
-- tiering that change several things run in the state and error monad of Base.Proc, or of Base.Exec,
-- whose combinators have rules for what a step keeps (Keeps) and where it leads (Turns). A `Result` is `Result E A`. A `clamp` that
-- would panic is `none`. Integers are natural numbers, or ℤ where the source has `i64` or `i32`;
-- saturating, checked and wrapping operations are written out in Base.Words and Base.Integer; a `+`
-- of the two 64-bit counters, of stored snapshots and of simulated mutations, wraps around, as in a
-- release build, where Cargo.toml sets no overflow checks (a debug build would panic). Times
-- of 128 bits are natural numbers without a bound. Text is compared by its characters; `len` counts
-- bytes.
--
-- `f64` is the parameter `Float F` (Base.Float), a type with the operations that the code uses; a
-- theorem that needs laws of it takes `IsOrdered`, which is what IEEE 754 says of comparison. The
-- instance `whole` has natural numbers. The cgroup backend and the snapshot store are parameters in
-- the same way. A loop recurs on the list that the source walks. Fuel is used
-- by the decimal print of Base.Text, 20 digits, which is enough for an integer of 64 bits, and by
-- `digits` of Base.Chars.Numbers, which gets more fuel than the number. Where a parser walks a text,
-- the text is a list of code points (Base.Chars).
--
-- Not modelled: files, processes, the kernel's interfaces, the database, the daemon and the command
-- line, serialization, the parsers of collector, the sessions of damon, and the crates storage and
-- benchmark. Of tiering, the older versions of the boot validation, the reading of the inventory and
-- of the topology from files, and the backends that call commands.
pub mod Base
pub mod Common
pub mod Collector
pub mod Classifier
pub mod Actuator
pub mod Policy
pub mod Damon
pub mod Damos
pub mod Zram
pub mod Ksm
pub mod Tiering
pub mod Examples
