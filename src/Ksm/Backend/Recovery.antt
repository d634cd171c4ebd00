-- ===== src/Ksm/Backend/Recovery.antt =====
-- What recovery restores, also after a failure in its middle (crates/ksm/src/lib.rs).
use nemor.Base.{◌≡◌, ◌⊎◌, inl, inr, refl, true, false, ◌==◌, none, arith, ok, err, is_ok, Result}
use nemor.Ksm.Types.{KsmError}
use nemor.Ksm.Backend.{
  KsmSnapshot, KsmTransaction, SimulatedBackend, mutate, set_run, set_scanner, restore, simulated,
  is_owned, has_prefix, restore_transaction, recover_owned, finish_restore,
}

-- The three values that recovery writes.
abbrev pub IsBaseline : KsmSnapshot → KsmSnapshot → Type 0
IsBaseline baseline s =
    (s.run ≡ baseline.run)
    × (s.pages_to_scan ≡ baseline.pages_to_scan)
    × (s.sleep_millisecs ≡ baseline.sleep_millisecs)

-- A restoration that succeeds has written the three values, and the other settings are kept.
restore-ok :
    (s : KsmSnapshot) (b : SimulatedBackend)
    → (restore s b).1 ≡ ok tt
    → IsBaseline s (restore s b).0.current
unfolding restore
restore-ok s b h = ground arith

restore-total :
    (s : KsmSnapshot) (b : SimulatedBackend)
    → b.fail_after ≡ none
    → (s.run == 2) ≡ false
    → (restore s b).1 ≡ ok tt
unfolding restore set_run set_scanner mutate
restore-total s b never h = ground arith

-- A transaction that may be recovered.
abbrev pub IsOwned : KsmTransaction → Type 0
IsOwned t =
    (t.recovered ≡ false) × (is_owned t.ownership ≡ true) × (has_prefix t.transaction_id ≡ true)

recover_owned-finish :
    (t : KsmTransaction) (b : SimulatedBackend)
    → IsOwned t
    → recover_owned simulated (t, b) ≡ finish_restore t (restore t.baseline b)
unfolding recover_owned restore_transaction
recover_owned-finish t b h = ground arith

-- The state after a first call, with the injected failure then taken away.
abbrev pub repaired : KsmTransaction × SimulatedBackend → KsmTransaction × SimulatedBackend
repaired (t, b) = (t, record b { fail_after = none })

-- The transaction is closed and the backend has the three values of its baseline.
abbrev pub IsRecovered : KsmTransaction → KsmTransaction × SimulatedBackend → Type 0
IsRecovered t (t', b) = (t'.recovered ≡ true) × IsBaseline t.baseline b.current

finish-cases :
    (t : KsmTransaction) (r : SimulatedBackend × Result KsmError (Unit {0}))
    → ((r.1 ≡ ok tt)
        × ((finish_restore t r).0 ≡ (record t { scanner_started = false; recovered = true }, r.0)))
      ⊎ ((is_ok r.1 ≡ false) × ((finish_restore t r).0 ≡ (t, r.0)))
finish-cases t (b, ok _) = inl (refl, refl)
finish-cases t (b, err e) = inr (refl, refl)

recover_owned-IsRecovered :
    (t : KsmTransaction) (b : SimulatedBackend)
    → IsOwned t
    → (t.baseline.run == 2) ≡ false
    → IsRecovered t (recover_owned simulated (t, record b { fail_after = none })).0
recover_owned-IsRecovered t b h run =
    let b' : SimulatedBackend = record b { fail_after = none } in
    let done = restore-total t.baseline b' refl run in
    rw (recover_owned-finish t b' h) (elim (finish-cases t (restore t.baseline b')) [
      | inl (written, e) ↦ rw e (refl, restore-ok t.baseline b' written)
      | inr (failed, e) ↦ absurd (ground arith)
    ])

-- For an owned and open transaction on the simulated backend, whose baseline does not ask for the
-- forbidden value 2 of `run`: however the first call ends, also where a write fails in its middle,
-- a second call without a failure leaves the transaction closed and the three values those of the
-- baseline.
pub recover_owned_twice :
    (t : KsmTransaction) (b : SimulatedBackend)
    → IsOwned t
    → (t.baseline.run == 2) ≡ false
    → IsRecovered t (recover_owned simulated (repaired (recover_owned simulated (t, b)).0)).0
unfolding recover_owned
recover_owned_twice t b h run =
    rw (recover_owned-finish t b h) (elim (finish-cases t (restore t.baseline b)) [
      | inl (written, e) ↦ rw e (refl, restore-ok t.baseline b written)
      | inr (failed, e) ↦ rw e (recover_owned-IsRecovered t (restore t.baseline b).0 h run)
    ])
