-- ===== src/Server.antt =====
-- src/server/server.c and include/server.h: the poll loop's handlers. Their parts are the children.
pub mod Blocklist
pub mod Clients
pub mod Sessions
pub mod State
pub mod User
pub mod Admin
pub mod Loop
pub mod Admins
pub mod Invariant
pub mod Reachable
pub mod Blocking
pub mod Inotify
pub mod Framing
pub mod Enqueued
pub mod NewJob
pub mod Startup
pub mod Pipe
pub mod Watching
mod PipeExamples
mod Examples
