-- ===== src/Chain.antt =====
-- peer/account/blockchain.go: blocks, the lottery, the tree of blocks with its longest branch, the
-- ledger that a branch computes, and the validation of a new block.
pub mod Block
pub mod Hardness
pub mod Tree
pub mod State
pub mod AddBlock
pub mod Guards
pub mod Accept
pub mod Leaf
pub mod Unsigned
pub mod Acyclic
pub mod Grow
pub mod Walk
