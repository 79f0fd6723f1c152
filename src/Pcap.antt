-- ===== src/Pcap.antt =====
-- backend/netaudit/pcap: capture files, frames and capture filters.
pub mod Format
pub mod Ng
pub mod Synth
pub mod Headers
pub mod Layers
pub mod Transports
pub mod Flags
pub mod Named
pub mod Synthesized
pub mod Import
pub mod Sessions
pub mod Contained
pub mod Uploads
pub mod Bpf
