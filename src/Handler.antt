-- ===== src/Handler.antt =====
-- lobbyboy/socket_handle.py: the thread that serves a connection.
pub mod Menu
pub mod Shell
pub mod Close
pub mod Run
pub mod Quiet
pub mod Registry
pub mod Destroy
pub mod Leave
pub mod Failed
pub mod Opened
pub mod Visit
pub mod Leak
pub mod Stranded
pub mod Created
pub mod Stream
pub mod Carried
pub mod Pipe
