-- ===== src/Ksm/Backend.antt =====
-- `KsmBackend`, its simulation, and the recovery of an owned transaction (crates/ksm/src/lib.rs).
pub mod Recovery
use nemor.Base.{
  ℕ, ◌+◌, Bool, true, false, not, ◌&&◌, ◌||◌, String, Option, none, some, List, [], ◌∷◌, str_eq,
  pairs_eq, ◌==◌, is_some_and, if◌then◌else◌, opt_eq, wrapping_add, Result, ok, err,
}
use nemor.Base.Chars.{codes, strip_prefix}
use nemor.Base.Proc.{Proc, ◌>>=◌, ◌>>◌, pure, fail, query, refuse, modify}
use nemor.Ksm.Types.{KsmError, io, not_safe, StableProcessIdentity}

pub data ScannerOwnership : Type 0 where
  external nemor_owned_validation not_running unknown : ScannerOwnership

pub record KsmSnapshot : Type 0 where
  pub run : ℕ
  pub pages_to_scan : ℕ
  pub sleep_millisecs : ℕ
  pub preserve_only : List (String × String)

pub record KsmTransaction : Type 0 where
  pub transaction_id : String
  pub decision_id : String
  pub plan_id : String
  pub ownership : ScannerOwnership
  pub baseline : KsmSnapshot
  pub child_identities : List StableProcessIdentity
  pub scanner_started : Bool
  pub recovered : Bool

-- The trait: each method acts on the backend `B`.
pub record KsmBackend (B : Type 0) : Type 0 where
  pub snapshot : Proc B KsmError KsmSnapshot
  pub set_run : ℕ → Proc B KsmError (Unit {0})
  pub set_scanner : ℕ → ℕ → Proc B KsmError (Unit {0})
  pub restore : KsmSnapshot → Proc B KsmError (Unit {0})
  pub mutations : B → ℕ

pub record SimulatedBackend : Type 0 where
  pub current : KsmSnapshot
  pub mutation_count : ℕ
  pub fail_after : Option ℕ

abbrev pub Step : Type 0
Step = Proc SimulatedBackend KsmError (Unit {0})

-- The counter of the mutations has 64 bits.
unfoldable pub mutate : Step
mutate b =
    (do
      refuse (opt_eq b.fail_after (some b.mutation_count)) (io "injected failure")
      modify λ b. record b { mutation_count = wrapping_add b.mutation_count 1 })
      b

unfoldable pub set_run : ℕ → Step
unfolding mutate
set_run value = do
  refuse (value == 2) (not_safe "run=2 is globally forbidden")
  mutate
  modify λ b. record b { current = record b.current { run = value } }

unfoldable pub set_scanner : ℕ → ℕ → Step
unfolding mutate
set_scanner pages sleep = do
  mutate
  modify λ b. record b {
    current = record b.current { pages_to_scan = pages; sleep_millisecs = sleep };
  }

unfoldable pub restore : KsmSnapshot → Step
unfolding set_run set_scanner
restore snapshot = do
  set_run 0
  set_scanner snapshot.pages_to_scan snapshot.sleep_millisecs
  set_run snapshot.run

abbrev pub simulated : KsmBackend SimulatedBackend
simulated = record {
  snapshot = query (λ b. ok b.current);
  set_run = set_run;
  set_scanner = set_scanner;
  restore = restore;
  mutations = λ b. b.mutation_count;
}

abbrev pub is_owned : ScannerOwnership → Bool
is_owned nemor_owned_validation = true
is_owned _ = false

abbrev pub found {ℓ} : {A : Type ℓ} → Option A → Bool
found none = false
found (some a) = true

-- `transaction_id.starts_with("nemor-validation-")`.
unfoldable pub has_prefix : String → Bool
has_prefix id = found (strip_prefix (codes "nemor-validation-") (codes id))

-- What follows the restoration: its error is passed on, its success is recorded.
module _ {B : Type 0} where
  abbrev pub finish_restore :
      KsmTransaction → B × Result KsmError (Unit {0}) → (KsmTransaction × B) × Result KsmError Bool
  finish_restore t (b, ok _) =
      ((record t { scanner_started = false; recovered = true }, b), ok true)
  finish_restore t (b, err e) = ((t, b), err e)

module _ {B : Type 0} (backend : KsmBackend B) where
  unfoldable pub restore_transaction : KsmTransaction → Proc (KsmTransaction × B) KsmError Bool
  unfolding has_prefix
  restore_transaction t (_, b) =
      if not (is_owned t.ownership) || not (has_prefix t.transaction_id)
      then ((t, b), err (not_safe "uncertain recovery ownership"))
      else finish_restore t (backend.restore t.baseline b)

  unfoldable pub recover_owned : Proc (KsmTransaction × B) KsmError Bool
  unfolding restore_transaction
  recover_owned (t, b) = if t.recovered then ((t, b), ok false) else restore_transaction t (t, b)

  unfoldable pub write_run_value : ℕ → Proc B KsmError (Unit {0})
  write_run_value value = do
    refuse (value == 2) (not_safe "run=2 is globally forbidden")
    backend.set_run value

unfoldable pub attempt_one_global_state_owned : KsmSnapshot → KsmSnapshot → Option String → Bool
attempt_one_global_state_owned baseline current advisor =
    (current.run == 1)
    && ((current.pages_to_scan == baseline.pages_to_scan)
        && ((current.sleep_millisecs == baseline.sleep_millisecs)
            && (is_some_and advisor (str_eq "none")
                && pairs_eq current.preserve_only baseline.preserve_only)))
