-- ===== src/Server.antt =====
-- app/server.c: the connection queue, its threads, and the choice of a service.
pub mod Queue
pub mod Threads
pub mod Dispatch
pub mod Start
pub mod Replies
pub mod InPlace
pub mod Shutdown
