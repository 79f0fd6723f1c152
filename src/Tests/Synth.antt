-- ===== src/Tests/Synth.antt =====
-- Synthesised frames of concrete packets.
use net_audit.Pcap.Named.{protocol_named}
use net_audit.Packet.{tcp, format_ipv4, flag_names}
use net_audit.Pcap.Synthesized.{expected}
use net_audit.Pcap.Synthesized.{IsShown, synthesize_frame-IsShown}
use net_audit.Common.Text.{text_eq, join}
use net_audit.Common.Text.{codes}
use net_audit.Common.Text.{Text}
use net_audit.Pcap.Synth.{
  Packet, parse_tcp_flags, checksum16, flag_bits, fold_carries, split_flags, synthesize_frame,
  strip, lstrip,
}
use net_audit.Common.{if◌then◌else◌, ℕ, ◌≡◌, refl, Option, some, List, [], ◌∷◌, arith, inr}

abbrev sample_aton : Text → Option (List ℕ)
sample_aton s =
    if text_eq s (codes "10.0.0.9") then some (10 ∷ 0 ∷ 0 ∷ 9 ∷ []) else some (1 ∷ 2 ∷ 3 ∷ 4 ∷ [])

abbrev syn : Packet
syn = record {
  protocol = some (codes "TCP");
  src_addr = some (codes "10.0.0.9");
  src_port = some 50000;
  dst_addr = some (codes "1.2.3.4");
  dst_port = some 443;
  byte_count = 60;
  flags = some (codes "syn|ACK");
}

-- SYN and ACK.
flags_read : parse_tcp_flags syn.flags ≡ 0x12
unfolding parse_tcp_flags flag_bits split_flags strip lstrip text_eq
flags_read = refl

-- The example of RFC 1071: the words 0001, f203, f4f5 and f6f7.
checksum_example : checksum16 (0x00 ∷ 0x01 ∷ 0xf2 ∷ 0x03 ∷ 0xf4 ∷ 0xf5 ∷ 0xf6 ∷ 0xf7 ∷ []) ≡ 0x220d
unfolding checksum16 fold_carries
checksum_example = refl

-- The packet with its flags as the captures write them, with a bar.
abbrev syn_ack : Packet
syn_ack = record syn { flags = some (codes "SYN|ACK") }

synthesize_frame-IsShown_example :
    IsShown syn_ack
      (expected
        (protocol_named (codes "TCP"))
        0x12
        syn_ack
        (10 ∷ 0 ∷ 0 ∷ 9 ∷ [])
        (1 ∷ 2 ∷ 3 ∷ 4 ∷ []))
      (synthesize_frame sample_aton syn_ack).0
unfolding text_eq join flag_names
synthesize_frame-IsShown_example =
    synthesize_frame-IsShown sample_aton syn_ack 10 0 0 9 1 2 3 4 b'|' 0x12 refl refl refl refl
      (inr refl) (omega arith) refl (omega arith)

-- What it shows.
syn_ack_fields :
    expected (protocol_named (codes "TCP")) 0x12 syn_ack (10 ∷ 0 ∷ 0 ∷ 9 ∷ []) (1 ∷ 2 ∷ 3 ∷ 4 ∷ [])
    ≡ record {
      protocol = tcp;
      src_addr = some (codes "10.0.0.9");
      src_port = some 50000;
      dst_addr = some (codes "1.2.3.4");
      dst_port = some 443;
      flags = some (codes "SYN,ACK");
    }
unfolding join flag_names format_ipv4
syn_ack_fields = refl
