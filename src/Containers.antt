-- ===== src/Containers.antt =====
-- The containers of the standard library that the program keeps its state in.
pub mod Order
pub mod Multimap
pub mod Map
