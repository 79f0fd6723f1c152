-- ===== src/Pcap/Layers.antt =====
-- The transport headers of a synthesised frame, and what the dissector reads of the IPv4 header.
use mathlib.Core.Path.{ap₂}
use net_audit.Struct.{fields}
use net_audit.Packet.Dissect.{
  dissect_frame, dissect_ethernet, dissect_tagged, dissect_ethertype, dissect_ipv4,
  dissect_ipv4_header, dissect_ipv4_fields, dissect_l4, undissected,
}
use net_audit.Packet.{unpack_ports, format_ipv4}
use net_audit.Packet.{unpack_u16}
use net_audit.Struct.{pack, to_bytes, unpack, to_bytes_le, big, from_bytes, from_bytes_le}
use net_audit.Pcap.Headers.{high, low, checksum16-bound, pack-word, length_pack}
use net_audit.Pcap.Synth.{
  checksum16, with_word, build_udp_header, build_icmp_header, nonzero_checksum, eth_header,
}
use net_audit.Common.{
  lt→ltb, le→ltb, length, ℕ, ◌+◌, ◌%◌, ◌<◌, ◌≡◌, refl, ap, Option, some, List, [], ◌∷◌, ◌++◌, arith,
}

abbrev pub UdpHeader : ℕ → ℕ → Option (List ℕ) → Type 0
UdpHeader src_port dst_port built =
    (size check : ℕ) × (built
      ≡ some (
          high src_port
          ∷ low src_port
          ∷ high dst_port
          ∷ low dst_port
          ∷ high size
          ∷ low size
          ∷ high check
          ∷ low check
          ∷ []))

udp_pack :
    (s d n : ℕ)
    → s < 65536
    → d < 65536
    → n < 65536
    → pack big (2 ∷ 2 ∷ 2 ∷ 2 ∷ []) (s ∷ d ∷ n ∷ 0 ∷ [])
      ≡ some (high s ∷ low s ∷ high d ∷ low d ∷ high n ∷ low n ∷ 0 ∷ 0 ∷ [])
unfolding pack to_bytes to_bytes_le
udp_pack s d n h k l = rw (lt→ltb s 65536 h, lt→ltb d 65536 k, lt→ltb n 65536 l) refl

nonzero-bound : (c : ℕ) → c < 65536 → nonzero_checksum c < 65536
nonzero-bound c h = ground arith

pub build_udp_header-UdpHeader :
    (s d : ℕ) (src dst payload : List ℕ)
    → length payload + 8 < 65536
    → UdpHeader (s % 65536) (d % 65536) (build_udp_header s d src dst payload)
unfolding build_udp_header with_word
build_udp_header-UdpHeader s d src dst payload h =
    let sp = s % 65536 in
    let dp = d % 65536 in
    let size = 8 + length payload in
    let header = high sp ∷ low sp ∷ high dp ∷ low dp ∷ high size ∷ low size ∷ 0 ∷ 0 ∷ [] in
    let bytes = ((src ++ dst) ++ (0 ∷ 17 ∷ high size ∷ low size ∷ [])) ++ (header ++ payload) in
    (
      size,
      nonzero_checksum (checksum16 bytes),
      rw
          (
            udp_pack sp dp size (omega arith) (omega arith) (omega arith),
            length_pack 17 size (omega arith) (omega arith),
            pack-word (nonzero_checksum (checksum16 bytes))
                (nonzero-bound (checksum16 bytes) (checksum16-bound bytes)),
          )
          refl,
    )

abbrev pub IcmpHeader : Option (List ℕ) → Type 0
IcmpHeader built =
    (check : ℕ) × (built ≡ some (8 ∷ 0 ∷ high check ∷ low check ∷ 0 ∷ 0 ∷ 0 ∷ 0 ∷ []))

pub build_icmp_header-IcmpHeader : (payload : List ℕ) → IcmpHeader (build_icmp_header payload)
unfolding build_icmp_header with_word pack to_bytes to_bytes_le
build_icmp_header-IcmpHeader payload =
    let bytes = 8 ∷ 0 ∷ 0 ∷ 0 ∷ 0 ∷ 0 ∷ 0 ∷ 0 ∷ payload in
    let check = checksum16 bytes in (check, rw (lt→ltb check 65536 (checksum16-bound bytes)) refl)

read_word : (v : ℕ) → v < 65536 → unpack_u16 (high v ∷ low v ∷ []) ≡ some v
unfolding unpack_u16 unpack fields from_bytes from_bytes_le
read_word v h = ap some (omega arith)

pub read_ports :
    (s d : ℕ)
    → s < 65536
    → d < 65536
    → unpack_ports (high s ∷ low s ∷ high d ∷ low d ∷ []) ≡ some (s, d)
unfolding unpack_ports unpack fields from_bytes from_bytes_le
read_ports s d h k = ap₂ (λ (a b : ℕ). some (a, b)) (omega arith) (omega arith)

-- Behind the Ethernet header and the addresses.
pub dissect-ipv4 :
    (t1 t2 c1 c2 proto a b c d e f g h : ℕ) (rest : List ℕ)
    → dissect_frame 1 (
        eth_header 8 0
        ++ (0x45 ∷ 0 ∷ t1 ∷ t2 ∷ 0 ∷ 0 ∷ 64 ∷ 0 ∷ 64 ∷ proto ∷ c1 ∷ c2 ∷ a ∷ b ∷ c ∷ d ∷ e ∷ f ∷ g
            ∷ h ∷ rest))
      ≡ dissect_l4 proto rest (record undissected {
        src_addr = some (format_ipv4 (a ∷ b ∷ c ∷ d ∷ []));
        dst_addr = some (format_ipv4 (e ∷ f ∷ g ∷ h ∷ []));
      })
unfolding dissect_frame dissect_ethernet dissect_tagged dissect_ethertype dissect_ipv4
    dissect_ipv4_header dissect_ipv4_fields unpack_u16 unpack fields from_bytes from_bytes_le
dissect-ipv4 t1 t2 c1 c2 proto a b c d e f g h rest =
    let ip =
      0x45 ∷ 0 ∷ t1 ∷ t2 ∷ 0 ∷ 0 ∷ 64 ∷ 0 ∷ 64 ∷ proto ∷ c1 ∷ c2 ∷ a ∷ b ∷ c ∷ d ∷ e ∷ f ∷ g ∷ h
      ∷ rest in
    rw
      (le→ltb (length (eth_header 8 0 ++ ip)) 14 (omega arith), le→ltb (length ip) 20 (omega arith))
      refl
