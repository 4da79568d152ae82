-- ===== src/ClientHello.antt =====
-- src/client_hello.rs: the ClientHello parser.
pub mod Cursor
pub mod DnsName
pub mod Body
pub mod Scanner
