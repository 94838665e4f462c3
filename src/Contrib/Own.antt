-- ===== src/Contrib/Own.antt =====
-- lobbyboy/contrib/provider: what the servers that the providers create are like.
pub mod Placed
pub mod Cloud
pub mod Local
pub mod BuiltIn
