-- ===== src/Packet/Dissect.antt =====
-- pcap/dissect.py: what an imported frame shows. The functions that fill in `result` return it.
use net_audit.Common.{
  ℕ, ◌*◌, ◌/◌, ◌%◌, ◌&&◌, ◌||◌, Option, none, some, List, [], ◌∷◌, length, get_elem?, drop, slice,
  ltb, leb, ◌==◌, if◌then◌else◌, map,
}
use net_audit.Common.Text.{Text, codes, join, hexadecimal}
use net_audit.Struct.{big, unpack}
use net_audit.Packet.{
  Protocol, tcp, udp, icmp, other, format_ipv4, TcpFlag, flag_names, ◌>>=◌, unpack_u16,
  unpack_ports,
}

abbrev pub tcp_flag_names : List TcpFlag
tcp_flag_names =
    (0x01, codes "FIN")
    ∷ (0x02, codes "SYN")
    ∷ (0x04, codes "RST")
    ∷ (0x08, codes "PSH")
    ∷ (0x10, codes "ACK")
    ∷ (0x20, codes "URG")
    ∷ (0x40, codes "ECE")
    ∷ (0x80, codes "CWR")
    ∷ []

unfoldable pub tcp_flags_str : ℕ → Text
unfolding flag_names join
tcp_flags_str bits = join (codes ",") (flag_names tcp_flag_names bits)

pub record Dissected : Type 0 where
  pub protocol : Protocol
  pub src_addr : Option Text
  pub src_port : Option ℕ
  pub dst_addr : Option Text
  pub dst_port : Option ℕ
  pub flags : Option Text

abbrev pub undissected : Dissected
undissected = record {
  protocol = other;
  src_addr = none;
  src_port = none;
  dst_addr = none;
  dst_port = none;
  flags = none;
}

unfoldable pub dissect_l4 : ℕ → List ℕ → Dissected → Option Dissected
dissect_l4 proto_num buf result =
    if proto_num == 6 && leb 20 (length buf)
    then (do
      ports ← unpack_ports (slice 0 4 buf)
      flags_byte ← get_elem? buf 13
      some (record result {
        protocol = tcp;
        src_port = some ports.0;
        dst_port = some ports.1;
        flags = some (tcp_flags_str flags_byte);
      }))
    else if proto_num == 17 && leb 8 (length buf)
    then (do
      ports ← unpack_ports (slice 0 4 buf)
      some (record result { protocol = udp; src_port = some ports.0; dst_port = some ports.1 }))
    else if proto_num == 1 || proto_num == 58
    then some (record result { protocol = icmp })
    else some (record result { protocol = other })

-- Behind the checks on the header's length.
unfoldable pub dissect_ipv4_fields : List ℕ → ℕ → Dissected → Option Dissected
dissect_ipv4_fields buf ihl result = do
  proto_num ← get_elem? buf 9
  dissect_l4 proto_num (drop ihl buf) (record result {
    src_addr = some (format_ipv4 (slice 12 16 buf));
    dst_addr = some (format_ipv4 (slice 16 20 buf));
  })

unfoldable pub dissect_ipv4_header : List ℕ → ℕ → Dissected → Option Dissected
dissect_ipv4_header buf ihl result =
    if ltb ihl 20 || ltb (length buf) ihl then some result else dissect_ipv4_fields buf ihl result

unfoldable pub dissect_ipv4 : List ℕ → Dissected → Option Dissected
dissect_ipv4 buf result =
    if ltb (length buf) 20
    then some result
    else (do ver_ihl ← get_elem? buf 0; dissect_ipv4_header buf (ver_ihl % 16 * 4) result)

-- ":".join(f"{g:x}" for g in struct.unpack("!8H", raw))
unfoldable pub format_ipv6 : List ℕ → Option Text
unfolding hexadecimal join
format_ipv6 raw = do
  groups ← unpack big (2 ∷ 2 ∷ 2 ∷ 2 ∷ 2 ∷ 2 ∷ 2 ∷ 2 ∷ []) raw
  some (join (codes ":") (map hexadecimal groups))

unfoldable pub dissect_ipv6 : List ℕ → Dissected → Option Dissected
dissect_ipv6 buf result = if ltb (length buf) 40 then some result else do
  next_header ← get_elem? buf 6
  src ← format_ipv6 (slice 8 24 buf)
  dst ← format_ipv6 (slice 24 40 buf)
  dissect_l4 next_header (drop 40 buf) (record result { src_addr = some src; dst_addr = some dst })

-- By the version in the high half of the first byte.
unfoldable pub dissect_version : ℕ → List ℕ → Option Dissected
dissect_version version bytes =
    if version == 4
    then dissect_ipv4 bytes undissected
    else if version == 6
    then dissect_ipv6 bytes undissected
    else some undissected

unfoldable pub dissect_raw_ip : List ℕ → Option Dissected
dissect_raw_ip bytes =
    if length bytes == 0
    then some undissected
    else (do first ← get_elem? bytes 0; dissect_version (first / 16 % 16) bytes)

-- The network layer behind an Ethernet header.
unfoldable pub dissect_ethertype : ℕ → List ℕ → Option Dissected
dissect_ethertype ethertype buf =
    if ethertype == 0x0800
    then dissect_ipv4 buf undissected
    else if ethertype == 0x86DD
    then dissect_ipv6 buf undissected
    else some undissected

-- A single VLAN tag is passed over, if there is room for it.
unfoldable pub dissect_tagged : ℕ → List ℕ → Option Dissected
dissect_tagged ethertype bytes =
    if ethertype == 0x8100 && leb 18 (length bytes)
    then (do inner ← unpack_u16 (slice 16 18 bytes); dissect_ethertype inner (drop 18 bytes))
    else dissect_ethertype ethertype (drop 14 bytes)

unfoldable pub dissect_ethernet : List ℕ → Option Dissected
dissect_ethernet bytes =
    if ltb (length bytes) 14
    then some undissected
    else (do ethertype ← unpack_u16 (slice 12 14 bytes); dissect_tagged ethertype bytes)

unfoldable pub dissect_frame : ℕ → List ℕ → Option Dissected
dissect_frame linktype bytes =
    if linktype == 1
    then dissect_ethernet bytes
    else if linktype == 101
    then dissect_raw_ip bytes
    else some undissected
