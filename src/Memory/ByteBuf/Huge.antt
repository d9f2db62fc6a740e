-- ===== src/Memory/ByteBuf/Huge.antt =====
-- Growing a buffer beyond a chunk's size (`newUnpooledChunk` in buffer/PoolArena.cpp).
use mutty.Memory.ByteBuf.{ByteBuf}
