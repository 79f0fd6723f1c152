-- ===== src/Pcap/Transports.antt =====
-- What the dissector reads of the transport headers.
use net_audit.Packet.Dissect.{Dissected, dissect_l4, tcp_flags_str}
use net_audit.Pcap.Headers.{high, low, parse_tcp_flags-bound, build_tcp_header-TcpHeader}
use net_audit.Pcap.Layers.{build_udp_header-UdpHeader, build_icmp_header-IcmpHeader, read_ports}
use net_audit.Pcap.Synth.{
  Packet, Layer4, tcp4, udp4, icmp4, other4, l4_len, zeros, build_l4, or_zero, proto_num_of,
  parse_tcp_flags,
}
use net_audit.Packet.{tcp, udp, icmp, other}
use net_audit.Common.{
  leb, length, ℕ, zero, suc, ◌+◌, ◌%◌, ◌≤◌, ◌<◌, ◌≡◌, refl, ap, true, Option, some, List, [], ◌∷◌,
  ◌++◌, arith,
}

-- What the dissector should show of a packet, beside its addresses.
abbrev pub shown : Layer4 → Packet → Dissected → Dissected
shown tcp4 p r = record r {
  protocol = tcp;
  src_port = some (or_zero p.src_port % 65536);
  dst_port = some (or_zero p.dst_port % 65536);
  flags = some (tcp_flags_str (parse_tcp_flags p.flags));
}
shown udp4 p r = record r {
  protocol = udp;
  src_port = some (or_zero p.src_port % 65536);
  dst_port = some (or_zero p.dst_port % 65536);
}
shown icmp4 p r = record r { protocol = icmp }
shown other4 p r = record r { protocol = other }

abbrev pub ReadsBack : Layer4 → Packet → Option (List ℕ) → Type 0
ReadsBack l p built =
    (bytes : List ℕ) × (built ≡ some bytes)
    × (length bytes ≡ l4_len l)
    × ((rest : List ℕ) (r : Dissected)
        → dissect_l4 (proto_num_of l) (bytes ++ rest) r ≡ some (shown l p r))

pub length-zeros : (n : ℕ) → length (zeros n) ≡ n
length-zeros zero = refl
length-zeros (suc n) = ap suc (length-zeros n)

enough : (a n : ℕ) → a ≤ n → leb a n ≡ true
enough a n h = ground arith

-- The dissector's reading of the two transport headers with ports.
dissect_tcp :
    (s d bits c1 c2 : ℕ) (rest : List ℕ) (r : Dissected)
    → s < 65536
    → d < 65536
    → bits < 256
    → dissect_l4 6
        (high s
          ∷ low s
          ∷ high d
          ∷ low d
          ∷ 0
          ∷ 0
          ∷ 0
          ∷ 0
          ∷ 0
          ∷ 0
          ∷ 0
          ∷ 0
          ∷ 80
          ∷ bits % 256
          ∷ 0
          ∷ 0
          ∷ c1
          ∷ c2
          ∷ 0
          ∷ 0
          ∷ rest)
        r
      ≡ some (record r {
        protocol = tcp;
        src_port = some s;
        dst_port = some d;
        flags = some (tcp_flags_str bits);
      })
unfolding dissect_l4
dissect_tcp s d bits c1 c2 rest r h k l =
    let same : bits % 256 ≡ bits = omega arith in
    let size = length (
      high s
      ∷ low s
      ∷ high d
      ∷ low d
      ∷ 0
      ∷ 0
      ∷ 0
      ∷ 0
      ∷ 0
      ∷ 0
      ∷ 0
      ∷ 0
      ∷ 80
      ∷ bits
      ∷ 0
      ∷ 0
      ∷ c1
      ∷ c2
      ∷ 0
      ∷ 0
      ∷ rest) in
    rw (same, enough 20 size (omega arith), dissect_l4) (rw (read_ports s d h k) refl)

dissect_udp :
    (s d z1 z2 c1 c2 : ℕ) (rest : List ℕ) (r : Dissected)
    → s < 65536
    → d < 65536
    → dissect_l4 17 (high s ∷ low s ∷ high d ∷ low d ∷ z1 ∷ z2 ∷ c1 ∷ c2 ∷ rest) r
      ≡ some (record r { protocol = udp; src_port = some s; dst_port = some d })
unfolding dissect_l4
dissect_udp s d z1 z2 c1 c2 rest r h k =
    let size = length (high s ∷ low s ∷ high d ∷ low d ∷ z1 ∷ z2 ∷ c1 ∷ c2 ∷ rest) in
    rw (enough 8 size (omega arith)) (rw (read_ports s d h k) refl)

pub build_l4-ReadsBack :
    (l : Layer4) (p : Packet) (src dst payload : List ℕ)
    → length payload + l4_len l < 65536
    → ReadsBack l p (build_l4 l p src dst payload)
unfolding build_l4 dissect_l4
build_l4-ReadsBack tcp4 p src dst payload h =
    let bits = parse_tcp_flags p.flags in
    let sp = or_zero p.src_port % 65536 in
    let dp = or_zero p.dst_port % 65536 in
    let (check, e) =
      build_tcp_header-TcpHeader (or_zero p.src_port) (or_zero p.dst_port) p.flags src dst payload
        h in
    (
      _,
      e,
      refl,
      λ rest r.
          dissect_tcp sp dp bits (high check) (low check) rest r (omega arith) (omega arith)
            (parse_tcp_flags-bound p.flags),
    )
build_l4-ReadsBack udp4 p src dst payload h =
    let sp = or_zero p.src_port % 65536 in
    let dp = or_zero p.dst_port % 65536 in
    let (size, check, e) =
      build_udp_header-UdpHeader (or_zero p.src_port) (or_zero p.dst_port) src dst payload h in
    (
      _,
      e,
      refl,
      λ rest r.
          dissect_udp sp dp (high size) (low size) (high check) (low check) rest r (omega arith)
            (omega arith),
    )
build_l4-ReadsBack icmp4 p src dst payload h =
    let (check, e) = build_icmp_header-IcmpHeader payload in (_, e, refl, λ rest r. refl)
build_l4-ReadsBack other4 p src dst payload h = ([], refl, refl, λ rest r. refl)
