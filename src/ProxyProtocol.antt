-- ===== src/ProxyProtocol.antt =====
-- pkg/proxyprotocol: the PROXY protocol header of an accepted connection. parse.go is in Reader, V1, V2
pub mod Reader
pub mod V1
pub mod V2
pub mod Header
pub mod RoundTrip
pub mod Consumed
pub mod Connection
pub mod Session
