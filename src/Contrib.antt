-- ===== src/Contrib.antt =====
-- lobbyboy/contrib/provider: the providers.
pub mod Host
pub mod Library
pub mod Cloud
pub mod Vultr
pub mod Linode
pub mod DigitalOcean
pub mod Local
pub mod Footloose
pub mod Ignite
pub mod Multipass
pub mod Vagrant
pub mod Own
