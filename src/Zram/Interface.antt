-- ===== src/Zram/Interface.antt =====
-- The trait `ZramBackend` (crates/zram/src/backend.rs). A `&self` method reads the state, which
-- includes the devices of the kernel; a `&mut self` method is a step on it.
use nemor.Base.{ℕ, Bool, String, Result}
use nemor.Base.Integer.{ℤ}
use nemor.Base.Proc.{Proc}
use nemor.Zram.Types.{DeviceInventory, Inventory, ZramError}

pub record ZramBackend (B : Type 0) : Type 0 where
  pub inspect : B → Result ZramError Inventory
  pub create_isolated_managed_device : Proc B ZramError DeviceInventory
  pub configure_uninitialized : String → String → Proc B ZramError (Unit {0})
  pub initialize : String → ℕ → Proc B ZramError (Unit {0})
  pub activate : String → ℤ → Proc B ZramError (Unit {0})
  pub deactivate : String → Proc B ZramError (Unit {0})
  pub verify : String → B → Result ZramError DeviceInventory
  pub reset_managed_device : String → Proc B ZramError (Unit {0})
  pub remove_managed_device : String → Proc B ZramError (Unit {0})
  pub effective_valid_swap_capacity : B → Result ZramError ℕ
  pub is_owned : String → B → Bool
