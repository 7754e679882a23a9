-- ===== src/Node.antt =====
-- The parachain node's own decisions (node/src): the chain specifications,
-- the command line and the start of the node.
pub mod ChainSpec
pub mod Cli
pub mod Command
pub mod Rpc
pub mod Service
pub mod Run
