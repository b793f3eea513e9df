-- ===== src/Module.antt =====
-- src/moModule.cpp: the base class of all modules.
pub mod Ports
pub mod Links
pub mod Disconnect
pub mod Contract
pub mod Properties
pub mod Lifecycle
use movid.Base.{ℕ}
