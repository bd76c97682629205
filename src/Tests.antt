-- ===== src/Tests.antt =====
-- Runs of the model on concrete inputs: a small platform, ledgers and a chain, and each theorem that
-- has parameters applied to them.
pub mod Data
mod Transfers
mod Wallet
pub mod Pools
mod Blocks
mod Tree
pub mod Network
pub mod Peers
mod Mempools
pub mod Services
mod Settings
mod Http
mod Logs
