-- ===== src/Transaction.antt =====
-- peer/account/transaction.go: what a signature covers, when a transaction is authentic, and what
-- applying it does to the ledger. The Go code normalises the transaction in place, so each step
-- returns the transaction as it leaves it.
pub mod Normal
pub mod Verify
pub mod Make
pub mod Wallet
pub mod Steps
pub mod AmmActions
pub mod Apply
pub mod Failure
pub mod Replay
pub mod Coins
pub mod Conservation
pub mod Supply
