-- ===== src/Tests.antt =====
-- Concrete runs of the services and of their parts.
mod Fixtures
mod Sockets
mod Numbers
mod Users
mod Contract
mod Delivery
mod Start
mod Replies
mod InPlace
mod Surprises
mod Connect
mod Forward
mod Messages
mod Threads
