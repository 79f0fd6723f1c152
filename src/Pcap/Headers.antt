-- ===== src/Pcap/Headers.antt =====
-- The headers of a synthesised frame, byte by byte.
use Prim.Native.Nat.{zero}
use net_audit.Packet.Dissect.{tcp_flag_names}
use net_audit.Common.Text.{Text, text_eq}
use net_audit.Struct.{pack, to_bytes, to_bytes_le, big}
use net_audit.Packet.{TcpFlag}
use net_audit.Pcap.Synth.{
  checksum16, with_word, build_ipv4_header, build_tcp_header, with_bit, flag_bits, parse_tcp_flags,
  split_flags, flag_bit, upper, strip, fold_carries,
}
use net_audit.Common.{
  if◌then◌else◌, lt→ltb, length, All, ℕ, ◌+◌, ◌/◌, ◌%◌, ◌<◌, ◌≡◌, refl, Bool, true, false, Option,
  none, some, List, [], ◌∷◌, ◌++◌, arith, ◌≤◌, suc, Bool-cases, ◌==◌, inl, inr,
}

pub checksum16-bound : (bytes : List ℕ) → checksum16 bytes < 65536
unfolding checksum16
checksum16-bound bytes = omega arith

-- A word as two bytes.
abbrev pub high : ℕ → ℕ
high v = v / 256 % 256

abbrev pub low : ℕ → ℕ
low v = v % 256

pub pack-word : (v : ℕ) → v < 65536 → pack big (2 ∷ []) (v ∷ []) ≡ some (high v ∷ low v ∷ [])
unfolding pack to_bytes to_bytes_le
pack-word v h = rw (lt→ltb v 65536 h) refl

abbrev pub Ipv4Header : ℕ → List ℕ → List ℕ → Option (List ℕ) → Type 0
Ipv4Header proto src dst built =
    (total check : ℕ) × (built
      ≡ some (
          0x45
          ∷ 0
          ∷ high total
          ∷ low total
          ∷ 0
          ∷ 0
          ∷ 0x40
          ∷ 0
          ∷ 64
          ∷ proto % 256
          ∷ high check
          ∷ low check
          ∷ (src ++ dst)))

front_pack :
    (proto total : ℕ)
    → proto < 256
    → total < 65536
    → pack big
        (1 ∷ 1 ∷ 2 ∷ 2 ∷ 2 ∷ 1 ∷ 1 ∷ 2 ∷ [])
        (0x45 ∷ 0 ∷ total ∷ 0 ∷ 0x4000 ∷ 64 ∷ proto ∷ 0 ∷ [])
      ≡ some (0x45 ∷ 0 ∷ high total ∷ low total ∷ 0 ∷ 0 ∷ 0x40 ∷ 0 ∷ 64 ∷ proto % 256 ∷ 0 ∷ 0 ∷ [])
unfolding pack to_bytes to_bytes_le
front_pack proto total h k = rw (lt→ltb total 65536 k, lt→ltb proto 256 h) refl

pub build_ipv4_header-Ipv4Header :
    (src dst : List ℕ) (proto n : ℕ)
    → proto < 256
    → Ipv4Header proto src dst (build_ipv4_header src dst proto n)
unfolding build_ipv4_header with_word
build_ipv4_header-Ipv4Header src dst proto n h =
    let total = (20 + n) % 65536 in
    let front =
      0x45 ∷ 0 ∷ high total ∷ low total ∷ 0 ∷ 0 ∷ 0x40 ∷ 0 ∷ 64 ∷ proto % 256 ∷ 0 ∷ 0 ∷ [] in
    let check = checksum16 (front ++ (src ++ dst)) in
    (
      total,
      check,
      rw
          (
            front_pack proto total h (omega arith),
            pack-word check (checksum16-bound (front ++ (src ++ dst))),
          )
          refl,
    )

-- The ports stand in front, and the flags at 13.
abbrev pub TcpHeader : ℕ → ℕ → ℕ → Option (List ℕ) → Type 0
TcpHeader src_port dst_port flags built =
    (check : ℕ) × (built
      ≡ some (
          high src_port
          ∷ low src_port
          ∷ high dst_port
          ∷ low dst_port
          ∷ 0
          ∷ 0
          ∷ 0
          ∷ 0
          ∷ 0
          ∷ 0
          ∷ 0
          ∷ 0
          ∷ 80
          ∷ flags % 256
          ∷ 0
          ∷ 0
          ∷ high check
          ∷ low check
          ∷ 0
          ∷ 0
          ∷ []))

tcp_pack :
    (s d flags : ℕ)
    → s < 65536
    → d < 65536
    → flags < 256
    → pack big
        (2 ∷ 2 ∷ 4 ∷ 4 ∷ 1 ∷ 1 ∷ 2 ∷ 2 ∷ 2 ∷ [])
        (s ∷ d ∷ 0 ∷ 0 ∷ 80 ∷ flags ∷ 0 ∷ 0 ∷ 0 ∷ [])
      ≡ some (
          high s
          ∷ low s
          ∷ high d
          ∷ low d
          ∷ 0
          ∷ 0
          ∷ 0
          ∷ 0
          ∷ 0
          ∷ 0
          ∷ 0
          ∷ 0
          ∷ 80
          ∷ flags % 256
          ∷ 0
          ∷ 0
          ∷ 0
          ∷ 0
          ∷ 0
          ∷ 0
          ∷ [])
unfolding pack to_bytes to_bytes_le
tcp_pack s d flags h k l = rw (lt→ltb s 65536 h, lt→ltb d 65536 k, lt→ltb flags 256 l) refl

pub length_pack :
    (proto n : ℕ)
    → proto < 256
    → n < 65536
    → pack big (1 ∷ 1 ∷ 2 ∷ []) (0 ∷ proto ∷ n ∷ []) ≡ some (0 ∷ proto % 256 ∷ high n ∷ low n ∷ [])
unfolding pack to_bytes to_bytes_le
length_pack proto n h k = rw (lt→ltb n 65536 k, lt→ltb proto 256 h) refl

-- Setting a bit of a byte gives a byte.
abbrev SetsByte : ℕ → Option ℕ → Type 0
SetsByte bits o = with_bit o bits < 256

either-SetsByte :
    (bits : ℕ) (b : Bool) (o p : Option ℕ)
    → SetsByte bits o
    → SetsByte bits p
    → SetsByte bits (if b then o else p)
either-SetsByte bits true o p h k = h
either-SetsByte bits false o p h k = k

flag_bit-SetsByte :
    (bits : ℕ) (flags : List TcpFlag) (token : Text)
    → bits < 256
    → All (λ f. SetsByte bits (some f.0)) flags
    → SetsByte bits (flag_bit flags token)
flag_bit-SetsByte bits [] token h hs = h
flag_bit-SetsByte bits ((mask, name) ∷ flags) token h hs =
    either-SetsByte bits (text_eq name token) (some mask) (flag_bit flags token) hs.0
      (flag_bit-SetsByte bits flags token h hs.1)

tcp_flags-SetsByte : (bits : ℕ) → bits < 256 → All (λ f. SetsByte bits (some f.0)) tcp_flag_names
tcp_flags-SetsByte bits h = (
  ground arith,
  (
    ground arith,
    (
      ground arith,
      (ground arith, (ground arith, (ground arith, (ground arith, (ground arith, tt))))),
    ),
  ),
)

flag_bits-bound : (ts : List Text) (bits : ℕ) → bits < 256 → flag_bits ts bits < 256
unfolding flag_bits
flag_bits-bound [] bits h = h
flag_bits-bound (t ∷ ts) bits h =
    flag_bits-bound ts (with_bit (flag_bit tcp_flag_names (upper (strip t))) bits)
      (flag_bit-SetsByte bits tcp_flag_names (upper (strip t)) h (tcp_flags-SetsByte bits h))

pub parse_tcp_flags-bound : (flags : Option Text) → parse_tcp_flags flags < 256
unfolding parse_tcp_flags
parse_tcp_flags-bound none = omega arith
parse_tcp_flags-bound (some []) = omega arith
parse_tcp_flags-bound (some (c ∷ cs)) = flag_bits-bound (split_flags (c ∷ cs)) 0 (omega arith)

pub build_tcp_header-TcpHeader :
    (s d : ℕ) (flags : Option Text) (src dst payload : List ℕ)
    → length payload + 20 < 65536
    → TcpHeader
        (s % 65536)
        (d % 65536)
        (parse_tcp_flags flags)
        (build_tcp_header s d flags src dst payload)
unfolding build_tcp_header with_word
build_tcp_header-TcpHeader s d flags src dst payload h =
    let bits = parse_tcp_flags flags in
    let sp = s % 65536 in
    let dp = d % 65536 in
    let header =
      high sp
      ∷ low sp
      ∷ high dp
      ∷ low dp
      ∷ 0
      ∷ 0
      ∷ 0
      ∷ 0
      ∷ 0
      ∷ 0
      ∷ 0
      ∷ 0
      ∷ 80
      ∷ bits % 256
      ∷ 0
      ∷ 0
      ∷ 0
      ∷ 0
      ∷ 0
      ∷ 0
      ∷ [] in
    let size = 20 + length payload in
    let bytes = ((src ++ dst) ++ (0 ∷ 6 ∷ high size ∷ low size ∷ [])) ++ (header ++ payload) in
    (
      checksum16 bytes,
      rw
          (
            tcp_pack sp dp bits (omega arith) (omega arith) (parse_tcp_flags-bound flags),
            length_pack 6 size (omega arith) (omega arith),
            pack-word (checksum16 bytes) (checksum16-bound bytes),
          )
          refl,
    )

-- The total is enough fuel: no carry is left.
fold_carries-bound : (fuel total : ℕ) → total ≤ fuel → fold_carries fuel total < 65536
unfolding fold_carries
fold_carries-bound zero total h = omega arith
fold_carries-bound (suc fuel) total h = elim (Bool-cases (total / 65536 == 0)) [
  | inl small ↦ rw (small, fold_carries) (ground arith)
  | inr large ↦
      rw (large, fold_carries)
        (fold_carries-bound fuel (total % 65536 + total / 65536) (ground arith))
]
