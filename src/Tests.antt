-- ===== src/Tests.antt =====
-- The theorems at concrete inputs, and runs of the code that no theorem speaks of.
pub mod OnMm
mod OnLibc
mod OnFs
mod OnKernel
mod OnDrivers
mod OnDisk
mod OnArch
pub mod OnPreempt
mod OnShell
mod OnStart
mod OnMain
