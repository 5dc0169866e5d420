-- ===== src/Series.antt =====
-- src/proto/series.c and src/proto/series.h: the protocol of the monome 64, 128 and 256.
pub mod Led
pub mod Level
pub mod Show
pub mod Draws
pub mod Cols
pub mod Blocks
pub mod Event
