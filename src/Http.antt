-- ===== src/Http.antt =====
-- internal/transport/http: the WebSocket connection and the REST API.
pub mod Mapper
pub mod Limiter
pub mod Response
pub mod Rooms
pub mod Accounts
pub mod Friends
pub mod Calls
pub mod Server
pub mod Socket
pub mod Connection
pub mod Delivery
mod Tests
