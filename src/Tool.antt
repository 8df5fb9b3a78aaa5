-- ===== src/Tool.antt =====
-- The C++ version of the tool, which CMakeLists.txt builds: the namespace tool.
pub mod Stream
pub mod Chunks
pub mod Documents
pub mod Index
pub mod Sorts
pub mod Faults
