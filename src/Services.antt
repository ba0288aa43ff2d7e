-- ===== src/Services.antt =====
-- src/services.c: the requests of clients, and what the server sends to their listening threads.
pub mod World
pub mod Client
pub mod Pending
pub mod Send
pub mod InPlace
pub mod Users
pub mod Forward
pub mod Replies
