-- ===== src/Forty.antt =====
-- src/proto/40h.c and src/proto/40h.h: the protocol of the monome 40h and the arduinome.
pub mod Led
pub mod Level
pub mod Draws
pub mod Map
pub mod Event
