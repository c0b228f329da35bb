-- ===== src/Server.antt =====
-- The servers: the requests and handler of server/ingest, the errors of api/v0, and how both
-- transports answer.
pub mod Client
pub mod Clients
pub mod Requests
pub mod Handler
pub mod Errors
pub mod Transport
