-- ===== src/FileServer.antt =====
-- exersises/concurrency/event-based-concurrency/exercise/file-server.c: the select()-based file
-- server.
pub mod Serve
pub mod Requests
pub mod EventLoop
pub mod Main
