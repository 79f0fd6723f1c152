-- ===== src/Packet/Agreement.antt =====
-- The raw-socket reader and the dissector agree on what they both read from a packet.
use net_audit.Common.Text.{Text}
use net_audit.Packet.{other, format_ipv4}
use net_audit.Packet.Dissect.{
  Dissected, dissect_l4, dissect_ipv4_fields, dissect_raw_ip, dissect_version, undissected,
  dissect_ipv4, dissect_ipv4_header,
}
use net_audit.Common.{
  slice, ℕ, ◌≡◌, ◌⊎◌, none, List, arith, some, ◌≤◌, length, drop, true, refl, ◌∷◌, ◌/◌, ◌%◌, ◌==◌,
  ltb, ◌*◌, ◌||◌, ◌+◌, false, [],
}
use net_audit.Packet.Totality.{
  Gives, unpack_ports-total, length-slice, get_elem?-total, unpack_u16-total, is_ipv4,
}
use net_audit.Packet.Parse.{
  ParsedPacket, parse_transport, parse_tcp, parse_udp, parse_icmp, parse_fields, parse_ipv4_packet,
  parse_checked,
}

-- The same addresses; ports that the dissector shows are the raw-socket reader's, and so is a protocol
-- other than `other`.
abbrev pub Agrees : ParsedPacket → Dissected → Type 0
Agrees p d =
    (d.src_addr ≡ some p.src_addr)
    × (d.dst_addr ≡ some p.dst_addr)
    × (((d.src_port ≡ none) × (d.dst_port ≡ none))
        ⊎ ((d.src_port ≡ p.src_port) × (d.dst_port ≡ p.dst_port)))
    × ((d.protocol ≡ other) ⊎ (d.protocol ≡ p.protocol))

transport_agreement :
    (proto_num : ℕ) (payload : List ℕ) (src dst : Text) (total : ℕ) (result : Dissected)
    → result.src_port ≡ none
    → result.dst_port ≡ none
    → result.src_addr ≡ some src
    → result.dst_addr ≡ some dst
    → Gives
        (λ p. Gives (Agrees p) (dissect_l4 proto_num payload result))
        (parse_transport proto_num payload src dst total)
unfolding parse_transport parse_tcp parse_udp parse_icmp dissect_l4
transport_agreement proto_num payload src dst total result e f g h = ground (
  arith,
  unpack_ports-total (slice 0 4 payload),
  length-slice 0 4 payload,
  get_elem?-total payload 13,
)

fields_agreement :
    (bytes : List ℕ) (header_len : ℕ)
    → 20 ≤ length bytes
    → Gives
        (λ p. Gives (Agrees p) (dissect_ipv4_fields bytes header_len undissected))
        (parse_fields bytes header_len)
unfolding parse_fields dissect_ipv4_fields
fields_agreement bytes header_len h =
    let (proto_num, e) = get_elem?-total bytes 9 (omega arith) in
    rw (unpack_u16-total (slice 2 4 bytes) (length-slice 2 4 bytes (omega arith) (omega arith)), e)
      (transport_agreement proto_num (drop header_len bytes) (format_ipv4 (slice 12 16 bytes))
        (format_ipv4 (slice 16 20 bytes)) _
        (record undissected {
          src_addr = some (format_ipv4 (slice 12 16 bytes));
          dst_addr = some (format_ipv4 (slice 16 20 bytes));
        })
        refl refl refl refl)

-- On every packet that passes the raw-socket reader's checks, `parse_ipv4_packet` and `dissect_raw_ip`
-- both give fields, with the same addresses; the ports are the same where the dissector shows any, and
-- so is the protocol where the dissector does not say "other".
pub parse-dissect_agreement :
    (bytes : List ℕ)
    → is_ipv4 bytes ≡ true
    → Gives (λ p. Gives (Agrees p) (dissect_raw_ip bytes)) (parse_ipv4_packet bytes)
unfolding parse_ipv4_packet parse_checked dissect_raw_ip dissect_version dissect_ipv4
    dissect_ipv4_header
parse-dissect_agreement [] h = cc
parse-dissect_agreement (b ∷ bytes) h =
    let high : b / 16 ≡ 4 = ground arith in
    let version : (b / 16 % 16 == 4) ≡ true = ground arith in
    let low : (ltb (b % 16 * 4) 20 || ltb (length bytes + 1) (b % 16 * 4)) ≡ false = ground arith in
    ground (arith, fields_agreement (b ∷ bytes) (b % 16 * 4))
