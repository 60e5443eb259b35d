-- ===== src/Helpers.antt =====
-- Allocators/AllocHelpers.h: the sizes that the allocators compute from a request, and aligned memory.
pub mod Sizes
pub mod Aligned
mod Tests
