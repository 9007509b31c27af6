-- ===== src/Index.antt =====
-- utils/index.hpp: linear indices of multi-dimensional arrays. A position lists the coordinates,
-- x first; an extent lists the sizes.
pub mod Radix
pub mod ColMajor
pub mod RowMajor
mod Tests
