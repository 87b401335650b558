-- ===== src/CApi.antt =====
-- src/c_api.cpp: the functions that the bindings call, with JSON text for their arguments and results.
pub mod Fields
pub mod StringMap
pub mod Integer
pub mod Host
pub mod Sign
pub mod Keys
pub mod Receive
pub mod Operations
pub mod Options
pub mod Invoke
pub mod Samples
mod Runs
