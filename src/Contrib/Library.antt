-- ===== src/Contrib/Library.antt =====
-- The libraries of the clouds that lobbyboy/contrib/provider calls: their objects, with the attributes
-- that are read, and their clients as records of calls.
pub mod Vultr
pub mod Linode
pub mod DigitalOcean
