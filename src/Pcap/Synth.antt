-- ===== src/Pcap/Synth.antt =====
-- pcap/synth.py: frames that are made of stored fields. `none` is a `struct.error`.
use net_audit.Struct.{pack, big}
use mathlib.Core.List.{reverse}
use net_audit.Packet.{◌>>=◌}
use net_audit.Packet.Dissect.{tcp_flag_names}
use net_audit.Packet.{TcpFlag}
use net_audit.Common.Text.{Text, codes, text_eq}
use net_audit.Common.{
  ltb, leb, ◌==◌, if◌then◌else◌, length, take, drop, any, ℕ, zero, suc, ◌+◌, ◌-◌, ◌*◌, ◌/◌, ◌%◌,
  min, Bool, true, false, ◌&&◌, ◌||◌, Option, none, some, List, [], ◌∷◌, ◌++◌,
}

-- Pairs of bytes as big-endian words; an odd byte is followed by a zero.
abbrev pub word_sum : List ℕ → ℕ
word_sum [] = 0
word_sum (a ∷ []) = a * 256
word_sum (a ∷ b ∷ bs) = a * 256 + b + word_sum bs

-- The loop that adds the carries; each round makes the total smaller.
unfoldable pub fold_carries : ℕ → ℕ → ℕ
fold_carries zero total = total
fold_carries (suc fuel) total = elim (total / 65536 == 0) [
  | true ↦ total
  | false ↦ fold_carries fuel (total % 65536 + total / 65536)
]

-- (~total) & 0xFFFF
unfoldable pub checksum16 : List ℕ → ℕ
unfolding fold_carries
checksum16 bytes = 65535 - fold_carries (word_sum bytes) (word_sum bytes) % 65536

-- `str.isspace`, for `strip`.
abbrev pub is_space : ℕ → Bool
is_space c =
    (leb 9 c && leb c 13)
    || ((leb 28 c && leb c 32)
        || (c == 133
            || (c == 160
                || (c == 5760
                    || ((leb 8192 c && leb c 8202)
                        || (c == 8232
                            || (c == 8233 || (c == 8239 || (c == 8287 || c == 12288)))))))))

unfoldable pub lstrip : Text → Text
lstrip [] = []
lstrip (c ∷ cs) = if is_space c then lstrip cs else c ∷ cs

unfoldable pub strip : Text → Text
unfolding lstrip
strip s = reverse (lstrip (reverse (lstrip s)))

-- `str.upper` of a character, as far as it gives letters of ASCII.
abbrev pub upper_char : ℕ → Text
upper_char c =
    if leb b'a' c && leb c b'z'
    then (c - 32) ∷ []
    else if c == 0x131
    then codes "I"
    else if c == 0x17F
    then codes "S"
    else if c == 0xFB01
    then codes "FI"
    else if c == 0xFB05 || c == 0xFB06
    then codes "ST"
    else c ∷ []

abbrev pub upper : Text → Text
upper [] = []
upper (c ∷ cs) = upper_char c ++ upper cs

-- .replace("|", ",").split(",")
abbrev pub onto_first : ℕ → List Text → List Text
onto_first c [] = (c ∷ []) ∷ []
onto_first c (t ∷ ts) = (c ∷ t) ∷ ts

unfoldable pub split_flags : Text → List Text
split_flags [] = [] ∷ []
split_flags (c ∷ cs) =
    let rest : List Text = split_flags cs in
    if c == b'|' || c == b',' then [] ∷ rest else onto_first c rest

abbrev pub flag_bit : List TcpFlag → Text → Option ℕ
flag_bit [] token = none
flag_bit ((mask, name) ∷ flags) token =
    if text_eq name token then some mask else flag_bit flags token

-- bits |= mask, for a power of two
abbrev pub with_bit : Option ℕ → ℕ → ℕ
with_bit none bits = bits
with_bit (some mask) bits = if (bits / mask) % 2 == 1 then bits else bits + mask

unfoldable pub flag_bits : List Text → ℕ → ℕ
unfolding strip
flag_bits [] bits = bits
flag_bits (t ∷ ts) bits = flag_bits ts (with_bit (flag_bit tcp_flag_names (upper (strip t))) bits)

unfoldable pub parse_tcp_flags : Option Text → ℕ
unfolding flag_bits split_flags
parse_tcp_flags none = 0
parse_tcp_flags (some []) = 0
parse_tcp_flags (some (c ∷ cs)) = flag_bits (split_flags (c ∷ cs)) 0

abbrev pub zeros : ℕ → List ℕ
zeros zero = []
zeros (suc n) = 0 ∷ zeros n

abbrev pub fake_src_mac : List ℕ
fake_src_mac = 2 ∷ 0 ∷ 0 ∷ 0 ∷ 0 ∷ 1 ∷ []

abbrev pub fake_dst_mac : List ℕ
fake_dst_mac = 2 ∷ 0 ∷ 0 ∷ 0 ∷ 0 ∷ 2 ∷ []

abbrev pub max_synthesized_frame_len : ℕ
max_synthesized_frame_len = 14 + 65535

unfoldable pub pad_to : List ℕ → ℕ → List ℕ
pad_to stack orig_len =
    if orig_len == 0
    then []
    else if ltb (length stack) (min orig_len max_synthesized_frame_len)
    then stack ++ zeros (min orig_len max_synthesized_frame_len - length stack)
    else take (min orig_len max_synthesized_frame_len) stack

-- A stored packet; a length is not negative.
pub record Packet : Type 0 where
  pub protocol : Option Text
  pub src_addr : Option Text
  pub src_port : Option ℕ
  pub dst_addr : Option Text
  pub dst_port : Option ℕ
  pub byte_count : ℕ
  pub flags : Option Text

-- `or 0`, and `or "0.0.0.0"`
abbrev pub or_zero : Option ℕ → ℕ
or_zero none = 0
or_zero (some n) = n

abbrev pub or_nowhere : Option Text → Text
or_nowhere none = codes "0.0.0.0"
or_nowhere (some []) = codes "0.0.0.0"
or_nowhere (some (c ∷ cs)) = c ∷ cs

pub data Layer4 : Type 0 where
  tcp4 udp4 icmp4 other4 : Layer4

-- `str.lower`, as far as it gives letters of ASCII that the names have.
abbrev pub lower : Text → Text
lower [] = []
lower (c ∷ cs) = (if leb b'A' c && leb c b'Z' then c + 32 else c) ∷ lower cs

abbrev pub or_blank : Option Text → Text
or_blank none = []
or_blank (some s) = s

abbrev pub layer_of : Text → Layer4
layer_of name =
    if text_eq name (codes "tcp")
    then tcp4
    else if text_eq name (codes "udp")
    then udp4
    else if text_eq name (codes "icmp")
    then icmp4
    else other4

-- The length of the header, and the protocol's number.
abbrev pub l4_len : Layer4 → ℕ
l4_len tcp4 = 20
l4_len udp4 = 8
l4_len icmp4 = 8
l4_len other4 = 0

abbrev pub proto_num_of : Layer4 → ℕ
proto_num_of tcp4 = 6
proto_num_of udp4 = 17
proto_num_of icmp4 = 1
proto_num_of other4 = 253

-- The bytes in front of a two-byte field, the field, and the bytes behind it.
unfoldable pub with_word : ℕ → ℕ → List ℕ → Option (List ℕ)
with_word n value header = do
  word ← pack big (2 ∷ []) (value ∷ [])
  some (take n header ++ (word ++ drop (n + 2) header))

unfoldable pub build_ipv4_header : List ℕ → List ℕ → ℕ → ℕ → Option (List ℕ)
unfolding checksum16 with_word
build_ipv4_header src dst proto payload_len = do
  front ←
      pack big (1 ∷ 1 ∷ 2 ∷ 2 ∷ 2 ∷ 1 ∷ 1 ∷ 2 ∷ [])
        (0x45 ∷ 0 ∷ (20 + payload_len) % 65536 ∷ 0 ∷ 0x4000 ∷ 64 ∷ proto ∷ 0 ∷ [])
  with_word 10 (checksum16 (front ++ (src ++ dst))) (front ++ (src ++ dst))

unfoldable pub build_tcp_header : ℕ → ℕ → Option Text → List ℕ → List ℕ → List ℕ → Option (List ℕ)
unfolding parse_tcp_flags checksum16 with_word
build_tcp_header src_port dst_port flags src dst payload = do
  header ←
      pack big (2 ∷ 2 ∷ 4 ∷ 4 ∷ 1 ∷ 1 ∷ 2 ∷ 2 ∷ 2 ∷ [])
        (src_port % 65536 ∷ dst_port % 65536 ∷ 0 ∷ 0 ∷ 80 ∷ parse_tcp_flags flags ∷ 0 ∷ 0 ∷ 0 ∷ [])
  length_part ← pack big (1 ∷ 1 ∷ 2 ∷ []) (0 ∷ 6 ∷ (length header + length payload) ∷ [])
  with_word 16 (checksum16 (((src ++ dst) ++ length_part) ++ (header ++ payload))) header

-- 0 would mean that there is no checksum.
abbrev pub nonzero_checksum : ℕ → ℕ
nonzero_checksum c = if c == 0 then 65535 else c

unfoldable pub build_udp_header : ℕ → ℕ → List ℕ → List ℕ → List ℕ → Option (List ℕ)
unfolding checksum16 with_word
build_udp_header src_port dst_port src dst payload = do
  header ←
      pack big (2 ∷ 2 ∷ 2 ∷ 2 ∷ [])
        (src_port % 65536 ∷ dst_port % 65536 ∷ (8 + length payload) ∷ 0 ∷ [])
  length_part ← pack big (1 ∷ 1 ∷ 2 ∷ []) (0 ∷ 17 ∷ (8 + length payload) ∷ [])
  with_word 6 (nonzero_checksum (checksum16 (((src ++ dst) ++ length_part) ++ (header ++ payload))))
      header

unfoldable pub build_icmp_header : List ℕ → Option (List ℕ)
unfolding checksum16 with_word
build_icmp_header payload = do
  header ← pack big (1 ∷ 1 ∷ 2 ∷ 2 ∷ 2 ∷ []) (8 ∷ 0 ∷ 0 ∷ 0 ∷ 0 ∷ [])
  with_word 2 (checksum16 (header ++ payload)) header

unfoldable pub build_l4 : Layer4 → Packet → List ℕ → List ℕ → List ℕ → Option (List ℕ)
unfolding build_tcp_header build_udp_header build_icmp_header
build_l4 tcp4 p src dst payload =
    build_tcp_header (or_zero p.src_port) (or_zero p.dst_port) p.flags src dst payload
build_l4 udp4 p src dst payload =
    build_udp_header (or_zero p.src_port) (or_zero p.dst_port) src dst payload
build_l4 icmp4 p src dst payload = build_icmp_header payload
build_l4 other4 p src dst payload = some []

abbrev pub payload_len_of : Layer4 → ℕ → ℕ
payload_len_of other4 orig_len = 0
payload_len_of l orig_len = min (orig_len - (34 + l4_len l)) (65535 - 20 - l4_len l)

abbrev pub eth_header : ℕ → ℕ → List ℕ
eth_header high low = fake_dst_mac ++ (fake_src_mac ++ (high ∷ low ∷ []))

unfoldable pub ipv4_frame : Layer4 → Packet → List ℕ → List ℕ → Option (List ℕ)
unfolding build_ipv4_header build_l4 pad_to
ipv4_frame l p src dst = do
  ip_header ← build_ipv4_header src dst (proto_num_of l) (l4_len l + payload_len_of l p.byte_count)
  l4_header ← build_l4 l p src dst (zeros (payload_len_of l p.byte_count))
  some (
      pad_to
        (eth_header 0x08 0x00
          ++ (ip_header ++ (l4_header ++ zeros (payload_len_of l p.byte_count))))
        p.byte_count)

-- "." in addr
abbrev pub has_dot : Text → Bool
has_dot s = any (λ c. c == b'.') s

abbrev pub ipv4_of : Text → Option (List ℕ) → Option (List ℕ)
ipv4_of s none = none
ipv4_of s (some bytes) = if has_dot s then some bytes else none

abbrev pub frame_of : Packet → Option (List ℕ) → Option (List ℕ) → Option (List ℕ)
frame_of p (some src) (some dst) = ipv4_frame (layer_of (lower (or_blank p.protocol))) p src dst
frame_of p _ _ = some (pad_to (eth_header 0x86 0xDD) p.byte_count)

-- `socket.inet_aton`, none for an OSError.
module _ (inet_aton : Text → Option (List ℕ)) where
  unfoldable pub synthesize_frame : Packet → Option (List ℕ) × ℕ
  unfolding ipv4_frame pad_to
  synthesize_frame p = (
    frame_of p (ipv4_of (or_nowhere p.src_addr) (inet_aton (or_nowhere p.src_addr)))
        (ipv4_of (or_nowhere p.dst_addr) (inet_aton (or_nowhere p.dst_addr))),
    p.byte_count,
  )
