-- ===== src/Pcap.antt =====
-- pcap/: the packet monitor. It prints the headers of each frame that it reads, and checks their
-- checksums.
pub mod Print
pub mod Messages
pub mod Sums
pub mod Analyze
pub mod Capture
