-- ===== src/Protocol.antt =====
-- Appliance/internal/protocol: the F11's frames, Huffman rows and print jobs.
pub mod Checksum
pub mod Frame
pub mod Huffman
pub mod Raster
pub mod Rebuild
pub mod Job
mod Tests
