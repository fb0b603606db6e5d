-- ===== src/Tests.antt =====
-- Concrete inputs at which the theorems apply.
pub mod Samples
mod HexText
mod Configs
mod Restarts
mod Starts
mod Serving
mod Nodes
mod Commanding
