-- ===== src/Tests.antt =====
-- Theorems applied at concrete inputs, and small runs of the definitions.
mod Pcap
mod Packet
mod Bpf
mod Baselines
mod Alerts
mod Scores
mod Threat
mod Synth
mod Import
mod Export
mod Webhook
mod Enrichment
mod LanScan
