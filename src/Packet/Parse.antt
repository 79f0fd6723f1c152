-- ===== src/Packet/Parse.antt =====
-- capture/parse.py: IPv4 packets as a raw socket delivers them.
use net_audit.Common.{
  ℕ, ◌*◌, ◌/◌, ◌%◌, not, ◌||◌, Option, none, some, List, [], ◌∷◌, length, get_elem?, drop, slice,
  ltb, leb, ◌==◌, if◌then◌else◌,
}
use net_audit.Common.Text.{Text, codes, join}
use net_audit.Packet.{
  Protocol, tcp, udp, icmp, other, format_ipv4, TcpFlag, flag_names, ◌>>=◌, unpack_u16,
  unpack_ports,
}

abbrev pub tcp_flag_bits : List TcpFlag
tcp_flag_bits =
    (0x01, codes "FIN")
    ∷ (0x02, codes "SYN")
    ∷ (0x04, codes "RST")
    ∷ (0x08, codes "PSH")
    ∷ (0x10, codes "ACK")
    ∷ (0x20, codes "URG")
    ∷ []

pub record ParsedPacket : Type 0 where
  pub protocol : Protocol
  pub src_addr : Text
  pub dst_addr : Text
  pub src_port : Option ℕ
  pub dst_port : Option ℕ
  pub total : ℕ
  pub flags : Text
  pub icmp_type : Option ℕ
  pub icmp_code : Option ℕ

-- A packet with no ports and no flags.
abbrev pub bare : Protocol → Text → Text → ℕ → ParsedPacket
bare protocol src dst total = record {
  protocol = protocol;
  src_addr = src;
  dst_addr = dst;
  src_port = none;
  dst_port = none;
  total = total;
  flags = [];
  icmp_type = none;
  icmp_code = none;
}

unfoldable pub tcp_flags_to_str : ℕ → Text
unfolding flag_names join
tcp_flags_to_str flag_byte = join (codes ",") (flag_names tcp_flag_bits flag_byte)

unfoldable pub parse_tcp : List ℕ → Text → Text → ℕ → Option ParsedPacket
parse_tcp payload src dst total =
    if ltb (length payload) 14 then some (bare tcp src dst total) else do
      ports ← unpack_ports (slice 0 4 payload)
      flag_byte ← get_elem? payload 13
      some (record (bare tcp src dst total) {
        src_port = some ports.0;
        dst_port = some ports.1;
        flags = tcp_flags_to_str (flag_byte % 64);
      })

unfoldable pub parse_udp : List ℕ → Text → Text → ℕ → Option ParsedPacket
parse_udp payload src dst total =
    if ltb (length payload) 4 then some (bare udp src dst total) else do
      ports ← unpack_ports (slice 0 4 payload)
      some (record (bare udp src dst total) { src_port = some ports.0; dst_port = some ports.1 })

-- `payload[0] if len(payload) >= 1 else None` is `get_elem?`.
unfoldable pub parse_icmp : List ℕ → Text → Text → ℕ → Option ParsedPacket
parse_icmp payload src dst total = some (record (bare icmp src dst total) {
  icmp_type = get_elem? payload 0;
  icmp_code = get_elem? payload 1;
})

-- The dispatch on the protocol number.
unfoldable pub parse_transport : ℕ → List ℕ → Text → Text → ℕ → Option ParsedPacket
parse_transport proto_num payload src dst total =
    if proto_num == 6
    then parse_tcp payload src dst total
    else if proto_num == 17
    then parse_udp payload src dst total
    else if proto_num == 1 || proto_num == 58
    then parse_icmp payload src dst total
    else some (bare other src dst total)

-- The header's total length, or what was received if that is below the header's own length.
abbrev pub actual_length : ℕ → ℕ → ℕ → ℕ
actual_length total_length header_len received =
    if leb header_len total_length then total_length else received

-- Behind the checks: the fields of the header, then the transport layer.
unfoldable pub parse_fields : List ℕ → ℕ → Option ParsedPacket
parse_fields bytes header_len = do
  total_length ← unpack_u16 (slice 2 4 bytes)
  proto_num ← get_elem? bytes 9
  parse_transport proto_num (drop header_len bytes) (format_ipv4 (slice 12 16 bytes))
      (format_ipv4 (slice 16 20 bytes)) (actual_length total_length header_len (length bytes))

-- The checks on the first byte: the version is its high half, the header length 4 times the low half.
unfoldable pub parse_checked : List ℕ → ℕ → Option ParsedPacket
parse_checked bytes first_byte =
    let header_len = first_byte % 16 * 4 in
    if not (first_byte / 16 == 4)
    then none
    else if ltb header_len 20 || ltb (length bytes) header_len
    then none
    else parse_fields bytes header_len

-- The exceptions that the body may raise are caught, and give `None` too.
unfoldable pub parse_ipv4_packet : List ℕ → Option ParsedPacket
parse_ipv4_packet bytes =
    if ltb (length bytes) 20
    then none
    else do first_byte ← get_elem? bytes 0; parse_checked bytes first_byte
