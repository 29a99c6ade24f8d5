-- ===== src/Store.antt =====
-- internal/store: the data model, and the SQLite implementation of the store over it.
pub mod Types
pub mod World
pub mod Users
pub mod Friends
pub mod Rooms
pub mod Messages
pub mod Calls
pub mod Samples
mod Tests
