-- ===== src/Config.antt =====
-- lobbyboy/config.py: the records of the configuration, and the data base of servers.
pub mod Types
pub mod Users
pub mod Servers
pub mod Json
pub mod File
