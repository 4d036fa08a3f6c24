-- ===== src/Tds.antt =====
-- src/tds: packets, the text of a batch, and the statements in it.
pub mod Utf16
pub mod Parser
pub mod Sql
pub mod RpcParse
pub mod ToBytes
pub mod RpcBuild
pub mod RpcTypes
