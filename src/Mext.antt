-- ===== src/Mext.antt =====
-- src/proto/mext.c and src/proto/mext.h: the protocol of the serial devices since 2011.
pub mod Message
pub mod Led
pub mod Level
pub mod Ring
pub mod Draws
pub mod Rows
pub mod Cols
pub mod Receive
pub mod Open
