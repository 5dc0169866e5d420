-- ===== src/Rotation.antt =====
-- src/rotation.c and src/private/rotation.h: coordinates, bit maps, level maps and bytes under
-- the four rotations.
pub mod Coords
pub mod Map
pub mod Builds
pub mod Levels
pub mod Reverse
