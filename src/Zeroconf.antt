-- ===== src/Zeroconf.antt =====
-- ZeroConf pairing, src/zeroconf.c: the texts of the request, the encrypted blob, the session.
pub mod Query
pub mod Blob
pub mod Http
pub mod Session
