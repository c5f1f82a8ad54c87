-- ===== src/Session.antt =====
-- common/hdr/tcpsession.h and common/src/tcpsession.cpp: what one connection writes to its socket
-- and reads from it.
pub mod Send
pub mod Read
mod Runs
pub mod EndToEnd
pub mod Lifetime
pub mod Address
