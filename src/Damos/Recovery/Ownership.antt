-- ===== src/Damos/Recovery/Ownership.antt =====
-- Recovery touches only owned sessions, and once is enough (crates/damos/src/lib.rs).
use text.Mathlib.Text.{starts_with}
use nemor.Base.{◌≡◌, false, ◌||◌, ◌⊎◌, String, ok, arith}
use nemor.Damos.Recovery.{OwnedSession, recover_owned}

-- A session that is not owned, or has another prefix, is refused and unchanged. Any other is stopped
-- with all else kept, and a second recovery succeeds with nothing to change.
pub recover_owned_once :
    (s : OwnedSession) (p : String)
    → let (t, r) = recover_owned s p in
      ((t ≡ s) × ((starts_with s.session_id p ≡ false) ⊎ (s.target.owned ≡ false)))
      ⊎ ((r ≡ ok (s.state_on || s.interrupted))
          × (t ≡ record s { state_on = false; interrupted = false })
          × (recover_owned t p ≡ (t, ok false)))
unfolding recover_owned
recover_owned_once s p = ground arith
