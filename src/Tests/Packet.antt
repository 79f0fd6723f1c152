-- ===== src/Tests/Packet.antt =====
-- Runs of capture/parse.py and pcap/dissect.py, and their theorems at concrete packets.
use net_audit.Common.Text.{codes}
use net_audit.Struct.{unpack}
use net_audit.Packet.{unpack_ports, format_ipv4, Protocol}
use net_audit.Packet.Parse.{parse_ipv4_packet}
use net_audit.Packet.Frames.{IsGiven, dissect_frame-total}
use net_audit.Packet.Agreement.{Agrees, parse-dissect_agreement}
use net_audit.Packet.Dissect.{
  dissect_frame, dissect_raw_ip, dissect_version, dissect_ipv4, dissect_ipv4_header,
  dissect_ipv4_fields, dissect_l4,
}
use net_audit.Packet.Totality.{is_ipv4, parse_ipv4_packet-IsAccepted, IsAccepted}
use net_audit.Packet.Totality.{Gives}
use net_audit.Common.{ℕ, ◌≡◌, refl, none, some, List, [], ◌∷◌}

-- A UDP packet from 10.0.0.1 port 53 to 10.0.0.2 port 40000.
abbrev dns_reply : List ℕ
dns_reply =
    0x45 ∷ 0 ∷ 0 ∷ 28 ∷ 0 ∷ 0 ∷ 0 ∷ 0 ∷ 64 ∷ 17 ∷ 0 ∷ 0 ∷ 10 ∷ 0 ∷ 0 ∷ 1 ∷ 10 ∷ 0 ∷ 0 ∷ 2 ∷ 0 ∷ 53
    ∷ 156 ∷ 64 ∷ 0 ∷ 8 ∷ 0 ∷ 0 ∷ []

parse-dissect_agreement_example :
    Gives (λ p. Gives (Agrees p) (dissect_raw_ip dns_reply)) (parse_ipv4_packet dns_reply)
parse-dissect_agreement_example = parse-dissect_agreement dns_reply refl

parse_ipv4_packet-IsAccepted_example :
    IsAccepted dns_reply (is_ipv4 dns_reply) (parse_ipv4_packet dns_reply)
parse_ipv4_packet-IsAccepted_example = parse_ipv4_packet-IsAccepted dns_reply

dissect_frame-total_example : Gives IsGiven (dissect_frame 101 dns_reply)
dissect_frame-total_example = dissect_frame-total 101 dns_reply

dissect_frame-dns_reply :
    dissect_frame 101 dns_reply
    ≡ some (record {
      protocol = Protocol.udp;
      src_addr = some (codes "10.0.0.1");
      src_port = some 53;
      dst_addr = some (codes "10.0.0.2");
      dst_port = some 40000;
      flags = none;
    })
unfolding dissect_frame dissect_raw_ip dissect_version dissect_ipv4 dissect_ipv4_header
    dissect_ipv4_fields dissect_l4 unpack_ports unpack format_ipv4
dissect_frame-dns_reply = refl
