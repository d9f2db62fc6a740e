-- ===== src/Memory.antt =====
-- The pooled allocator and its buffers: the folder buffer/.
pub mod Powers
pub mod MathUtil
pub mod SizeClasses
pub mod ByteBuf
pub mod Handle
pub mod Subpage
pub mod LongPriorityQueue
pub mod RunQueue
pub mod Sizes
pub mod PoolChunk
pub mod ChunkLists
pub mod ThreadCache
pub mod Arena
pub mod Allocator
pub mod Recycler
mod Tests
