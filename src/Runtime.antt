-- ===== src/Runtime.antt =====
-- What the code of tool.c takes from outside: the codec of streamvbytedelta.h, through which a
-- chunk is compressed and decompressed, and the content of memory that nobody has written.
mod Instance
pub use Instance.{stream_vbyte}
pub use Defs.{Runtime}
mod Defs
