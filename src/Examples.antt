-- ===== src/Examples.antt =====
-- The theorems at concrete inputs, on which the modelled code runs: one module for each crate.
mod Policy
mod Classifier
mod Actuator
mod Apply
mod Damos
mod Reclaim
mod Common
mod Zram
mod Ksm
mod BootHost
mod Tiering
mod ValidManifest
mod Swapfile
mod Recommendation
mod Workload
