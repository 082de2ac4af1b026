-- ===== src/Api.antt =====
-- api/dps and models/convert: the index reader of another machine. The server answers each request
-- from a reader of its own; the client is a reader that sends the requests.
pub mod Messages
pub mod Validation
pub mod Convert
pub mod Server
pub mod Client
pub mod Queries
pub mod Connection
pub mod Carrying
pub mod Refusals
pub mod Remote
pub mod Registers
