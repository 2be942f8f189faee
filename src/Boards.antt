-- ===== src/Boards.antt =====
-- The board files.
pub mod Shared
pub mod Bcm63xx
pub mod Exynos
pub mod Dreamplug
pub mod Generic
pub mod Raumfeld
