-- ===== src/Tiering/Boot/Operations/Valid.antt =====
-- What the checks at the start of an operation keep (crates/tiering/src/boot_validation_v6.rs).
use nemor.Base.{Result}
use nemor.Base.Exec.Keeps.{Keeps, Keeps-bind, Keeps-query}
use nemor.Tiering.Boot.Types.{BootValidationError, PreparedManifest}
use nemor.Tiering.Boot.Interface.{BootLifecycleBackend, Serializer}
use nemor.Tiering.Boot.Ledger.{DurableTransaction}
use nemor.Tiering.Boot.Lifecycle.{seal_of}
use nemor.Tiering.Boot.Lifecycle.Stable.{IsStable, Of, validate-Keeps}
use nemor.Tiering.Boot.Operations.{validated}

module _ {B : Type 0} (backend : BootLifecycleBackend B) (serial : Serializer)
    (check_manifest : PreparedManifest → Result BootValidationError (Unit {0}))
    {Q : DurableTransaction → Type 0} (q : IsStable (seal_of backend serial) Q) where
  pub validated-Keeps :
      (manifest : PreparedManifest)
      → Keeps (Of backend serial q) (validated backend serial check_manifest manifest)
  validated-Keeps manifest = Keeps-bind _ _ (Keeps-query _) (λ _. validate-Keeps backend serial q)
