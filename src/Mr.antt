-- ===== src/Mr.antt =====
-- MapReduce: the RPC types, the coordinator and the worker of mr/, and main/mrsequential.go.
pub mod Rpc
pub mod Coordinator
pub mod Worker
pub mod Sequential
pub mod WordCount
mod Samples
