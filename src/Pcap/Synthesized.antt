-- ===== src/Pcap/Synthesized.antt =====
-- What the dissector shows of a synthesised frame.
use net_audit.Packet.{Protocol, tcp, udp, icmp, other}
use net_audit.Pcap.Synth.{or_zero, parse_tcp_flags}
use net_audit.Packet.Dissect.{tcp_flags_str}
use net_audit.Pcap.Flags.{flags_text, IsSeparator, parse_tcp_flags-flags_text}
use net_audit.Pcap.Named.{
  protocol_of, protocol_named, header_room, protocol_of-layer_of, l4_len-header_room,
}
use net_audit.Common.Text.{Text}
use net_audit.Pcap.Transports.{shown, length-zeros, build_l4-ReadsBack}
use net_audit.Packet.Dissect.{Dissected, dissect_l4, undissected, dissect_frame}
use mathlib.Core.List.{append_assoc, append-nil}
use mathlib.Core.Path.{ap₂}
use net_audit.Pcap.Headers.{high, low, build_ipv4_header-Ipv4Header}
use net_audit.Pcap.Layers.{dissect-ipv4}
use net_audit.Pcap.Synth.{
  Packet, Layer4, tcp4, udp4, icmp4, other4, l4_len, zeros, proto_num_of, pad_to, ipv4_frame,
  payload_len_of, eth_header, synthesize_frame, has_dot, or_nowhere, layer_of, lower, or_blank,
}
use net_audit.Packet.{format_ipv4}
use net_audit.Common.{
  ltb, ◌==◌, ltb→lt, ltb→ge, Bool-cases, length, length-append, take-all, ℕ, ◌+◌, ◌-◌, ◌%◌, ◌≤◌,
  ◌<◌, min, ◌≡◌, refl, sym, ap, ◌∙◌, inl, inr, true, false, Option, some, List, [], ◌∷◌, ◌++◌,
  arith, none,
}

-- A frame that is not longer than observed is padded with zeros, up to what was observed or the cap.
pad_to-zeros :
    (stack : List ℕ) (orig_len : ℕ)
    → 0 < orig_len
    → length stack ≤ min orig_len 65549
    → (k : ℕ) × ((pad_to stack orig_len ≡ stack ++ zeros k)
        × (length stack + k ≡ min orig_len 65549))
unfolding pad_to
pad_to-zeros stack orig_len h k =
    let some_length : (orig_len == 0) ≡ false = ground arith in
    elim (Bool-cases (ltb (length stack) (min orig_len 65549))) [
      | inl room ↦ (
        min orig_len 65549 - length stack,
        rw (some_length, room)
            (refl, omega (arith, ltb→lt (length stack) (min orig_len 65549) room)),
      )
      | inr full ↦ (
        0,
        rw (some_length, full)
            (
              take-all stack (min orig_len 65549)
                    (omega (arith, ltb→ge (length stack) (min orig_len 65549) full))
                  ∙ sym (append-nil stack),
              omega (arith, ltb→ge (length stack) (min orig_len 65549) full),
            ),
      )
    ]

abbrev pub addressed : List ℕ → List ℕ → Dissected
addressed src dst = record undissected {
  src_addr = some (format_ipv4 src);
  dst_addr = some (format_ipv4 dst);
}

abbrev pub IsMade : Layer4 → Packet → List ℕ → List ℕ → Option (List ℕ) → Type 0
IsMade l p src dst made =
    (frame : List ℕ) × (made ≡ some frame)
    × (length frame ≡ min p.byte_count 65549)
    × (dissect_frame 1 frame ≡ some (shown l p (addressed src dst)))

proto_byte : (l : Layer4) → (proto_num_of l < 256) × (proto_num_of l % 256 ≡ proto_num_of l)
proto_byte tcp4 = (omega arith, refl)
proto_byte udp4 = (omega arith, refl)
proto_byte icmp4 = (omega arith, refl)
proto_byte other4 = (omega arith, refl)

payload-bound : (l : Layer4) (m : ℕ) → payload_len_of l m + l4_len l < 65536
payload-bound tcp4 m = omega arith
payload-bound udp4 m = omega arith
payload-bound icmp4 m = omega arith
payload-bound other4 m = omega arith

payload_fits :
    (l : Layer4) (m : ℕ) → 34 + l4_len l ≤ m → 34 + (l4_len l + payload_len_of l m) ≤ min m 65549
payload_fits tcp4 m h = omega arith
payload_fits udp4 m h = omega arith
payload_fits icmp4 m h = omega arith
payload_fits other4 m h = omega arith

ipv4_frame-IsMade :
    (l : Layer4) (p : Packet) (a b c d e f g h : ℕ)
    → 34 + l4_len l ≤ p.byte_count
    → IsMade l p
        (a ∷ b ∷ c ∷ d ∷ [])
        (e ∷ f ∷ g ∷ h ∷ [])
        (ipv4_frame l p (a ∷ b ∷ c ∷ d ∷ []) (e ∷ f ∷ g ∷ h ∷ []))
unfolding ipv4_frame
ipv4_frame-IsMade l p a b c d e f g h long =
    let src = a ∷ b ∷ c ∷ d ∷ [] in
    let dst = e ∷ f ∷ g ∷ h ∷ [] in
    let n = payload_len_of l p.byte_count in
    let (total, check, made_ip) =
      build_ipv4_header-Ipv4Header src dst (proto_num_of l) (l4_len l + n) (proto_byte l).0 in
    let (bytes, made_l4, size, reads) =
      build_l4-ReadsBack l p src dst (zeros n)
        (omega (arith, length-zeros n, payload-bound l p.byte_count)) in
    let ip =
      0x45
      ∷ 0
      ∷ high total
      ∷ low total
      ∷ 0
      ∷ 0
      ∷ 64
      ∷ 0
      ∷ 64
      ∷ proto_num_of l % 256
      ∷ high check
      ∷ low check
      ∷ (src ++ dst) in
    let stack = eth_header 8 0 ++ (ip ++ (bytes ++ zeros n)) in
    let stack_size : length stack ≡ 34 + (l4_len l + n) =
      omega (arith, length-append bytes (zeros n), length-zeros n, size) in
    let (k, (padded, full)) =
      pad_to-zeros stack p.byte_count (omega (arith, long))
        (omega (arith, stack_size, payload_fits l p.byte_count long)) in
    (
      stack ++ zeros k,
      rw (made_ip, made_l4) (ap (λ t. some t) padded),
      length-append stack (zeros k) ∙ ap (λ m. length stack + m) (length-zeros k) ∙ full,
      dissect-ipv4 (high total) (low total) (high check) (low check) (proto_num_of l % 256) a b c d
            e f g h ((bytes ++ zeros n) ++ zeros k)
          ∙ ap₂ (λ (m : ℕ) (t : List ℕ). dissect_l4 m t (addressed src dst)) (proto_byte l).1
              (append_assoc bytes (zeros n) (zeros k))
          ∙ reads (zeros n ++ zeros k) (addressed src dst),
    )

-- What a packet of a protocol should show: its addresses, with ports for TCP and UDP, flags for TCP.
abbrev pub shown_port : Protocol → Option ℕ → Option ℕ
shown_port tcp port = some (or_zero port % 65536)
shown_port udp port = some (or_zero port % 65536)
shown_port icmp port = none
shown_port other port = none

abbrev pub shown_flags : Protocol → ℕ → Option Text
shown_flags tcp bits = some (flags_text b',' bits)
shown_flags udp bits = none
shown_flags icmp bits = none
shown_flags other bits = none

abbrev pub expected : Protocol → ℕ → Packet → List ℕ → List ℕ → Dissected
expected named bits p src dst = record {
  protocol = named;
  src_addr = some (format_ipv4 src);
  src_port = shown_port named p.src_port;
  dst_addr = some (format_ipv4 dst);
  dst_port = shown_port named p.dst_port;
  flags = shown_flags named bits;
}

-- A frame as long as observed, up to the cap, of which the dissector shows the fields.
abbrev pub IsShown : Packet → Dissected → Option (List ℕ) → Type 0
IsShown p fields made =
    (frame : List ℕ) × (made ≡ some frame)
    × (length frame ≡ min p.byte_count 65549)
    × (dissect_frame 1 frame ≡ some fields)

shown-expected :
    (l : Layer4) (bits : ℕ) (p : Packet) (src dst : List ℕ)
    → parse_tcp_flags p.flags ≡ bits
    → shown l p (addressed src dst) ≡ expected (protocol_of l) bits p src dst
unfolding tcp_flags_str
shown-expected tcp4 bits p src dst e = ap (λ b. expected tcp b p src dst) e
shown-expected udp4 bits p src dst e = refl
shown-expected icmp4 bits p src dst e = refl
shown-expected other4 bits p src dst e = refl

synthesize_frame-IsMade :
    (inet_aton : Text → Option (List ℕ)) (p : Packet) (a b c d e f g h : ℕ)
    → has_dot (or_nowhere p.src_addr) ≡ true
    → has_dot (or_nowhere p.dst_addr) ≡ true
    → inet_aton (or_nowhere p.src_addr) ≡ some (a ∷ b ∷ c ∷ d ∷ [])
    → inet_aton (or_nowhere p.dst_addr) ≡ some (e ∷ f ∷ g ∷ h ∷ [])
    → 34 + l4_len (layer_of (lower (or_blank p.protocol))) ≤ p.byte_count
    → IsMade
        (layer_of (lower (or_blank p.protocol)))
        p
        (a ∷ b ∷ c ∷ d ∷ [])
        (e ∷ f ∷ g ∷ h ∷ [])
        (synthesize_frame inet_aton p).0
unfolding synthesize_frame
synthesize_frame-IsMade inet_aton p a b c d e f g h dot_src dot_dst src dst long =
    rw (src, dst)
      (rw (dot_src, dot_dst)
        (ipv4_frame-IsMade (layer_of (lower (or_blank p.protocol))) p a b c d e f g h long))

-- A packet between IPv4 addresses, whose observed length has room for the headers, and whose flags are
-- written as the captures write some byte of flags, with commas or with bars between the names, is written
-- as a frame that the dissector reads back: the protocol that the stored name spells, in any case, or
-- "other"; both addresses; for TCP and UDP the ports modulo 2 ^ 16, and for TCP the same flags. The frame
-- is as long as observed, up to the cap.
pub synthesize_frame-IsShown :
    (inet_aton : Text → Option (List ℕ)) (p : Packet) (a b c d e f g h sep bits : ℕ)
    → has_dot (or_nowhere p.src_addr) ≡ true
    → has_dot (or_nowhere p.dst_addr) ≡ true
    → inet_aton (or_nowhere p.src_addr) ≡ some (a ∷ b ∷ c ∷ d ∷ [])
    → inet_aton (or_nowhere p.dst_addr) ≡ some (e ∷ f ∷ g ∷ h ∷ [])
    → IsSeparator sep
    → bits < 256
    → or_blank p.flags ≡ flags_text sep bits
    → 34 + header_room (protocol_named (or_blank p.protocol)) ≤ p.byte_count
    → IsShown p
        (expected
          (protocol_named (or_blank p.protocol))
          bits
          p
          (a ∷ b ∷ c ∷ d ∷ [])
          (e ∷ f ∷ g ∷ h ∷ []))
        (synthesize_frame inet_aton p).0
synthesize_frame-IsShown inet_aton p a b c d e f g h sep bits dot_src dot_dst from to is_sep byte
      given long =
    let l = layer_of (lower (or_blank p.protocol)) in
    let src = a ∷ b ∷ c ∷ d ∷ [] in
    let dst = e ∷ f ∷ g ∷ h ∷ [] in
    let named : protocol_of l ≡ protocol_named (or_blank p.protocol) =
      protocol_of-layer_of (or_blank p.protocol) in
    let room : l4_len l ≡ header_room (protocol_named (or_blank p.protocol)) =
      l4_len-header_room l ∙ ap header_room named in
    let (frame, made, size, reads) =
      synthesize_frame-IsMade inet_aton p a b c d e f g h dot_src dot_dst from to
        (omega (arith, room, long)) in
    (
      frame,
      made,
      size,
      reads
          ∙ ap (λ r. some r)
              (shown-expected l bits p src dst
                  (parse_tcp_flags-flags_text p.flags sep bits is_sep byte given)
                ∙ ap (λ q. expected q bits p src dst) named),
    )
