-- ===== src/Examples.antt =====
-- Concrete inputs: a JSON text format, an external library made of it, and the theorems at work.
pub mod Codec
pub mod Service
pub mod Runs
pub mod Values
pub mod Requests
pub mod Recovery
pub mod Client
pub mod Access
pub mod Starting
