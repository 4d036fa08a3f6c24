-- ===== src/Proxy.antt =====
-- src/proxy/tds_proxy.py: what the proxy does with the bytes that a client sends, with the packet
-- parser on or with the sniffing of statements on.
pub mod State
pub mod Batch
pub mod Repack
pub mod Rpc
pub mod Loop
pub mod Pipe
pub mod Packed
pub mod Suggested
pub mod Evolves
pub mod Server
