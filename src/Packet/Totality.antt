-- ===== src/Packet/Totality.antt =====
-- The raw-socket reader never fails on bytes that pass its checks.
use mathlib.Core.Option.{none}
use net_audit.Packet.Parse.{
  parse_transport, ParsedPacket, parse_tcp, parse_udp, parse_icmp, parse_fields, parse_ipv4_packet,
  parse_checked,
}
use net_audit.Common.Text.{Text}
use net_audit.Struct.{fields, from_bytes, big}
use net_audit.Packet.{unpack_ports, format_ipv4}
use net_audit.Packet.{unpack_u16}
use net_audit.Common.{
  length, get_elem?, take, drop, slice, length-take, length-drop, ℕ, zero, suc, ◌-◌, ◌≤◌, ◌<◌, ◌≡◌,
  refl, some, List, [], ◌∷◌, arith, Option, Bool, false, leb, true, ◌&&◌, ◌%◌, ◌/◌, ◌*◌, ◌==◌, ◌+◌,
  Bool-cases, inl, inr,
}
use net_audit.Struct.Laws.{unpack_total}

pub get_elem?-total {ℓ} :
    {A : Type ℓ} (xs : List A) (i : ℕ) → i < length xs → (a : A) × (get_elem? xs i ≡ some a)
get_elem?-total [] i h = absurd (omega arith)
get_elem?-total (x ∷ xs) zero h = (x, refl)
get_elem?-total (x ∷ xs) (suc i) h = get_elem?-total xs i (omega arith)

pub length-slice {ℓ} :
    {A : Type ℓ} (lo hi : ℕ) (xs : List A)
    → lo ≤ hi
    → hi ≤ length xs
    → length (slice lo hi xs) ≡ hi - lo
length-slice lo hi xs h k = omega (arith, length-take (hi - lo) (drop lo xs), length-drop lo xs)

pub unpack_u16-total :
    (raw : List ℕ) → length raw ≡ 2 → unpack_u16 raw ≡ some (from_bytes big (take 2 raw))
unfolding unpack_u16 fields
unpack_u16-total raw h = rw (unpack_total big (2 ∷ []) raw h, unpack_u16)

pub unpack_ports-total :
    (raw : List ℕ)
    → length raw ≡ 4
    → unpack_ports raw ≡ some (from_bytes big (take 2 raw), from_bytes big (take 2 (drop 2 raw)))
unfolding unpack_ports fields
unpack_ports-total raw h = rw (unpack_total big (2 ∷ 2 ∷ []) raw h, unpack_ports)

abbrev pub Gives {ℓ} : {A : Type ℓ} → (A → Type 0) → Option A → Type 0
Gives P none = ⊥
Gives P (some a) = P a

-- The transport layer keeps the addresses that it is given, and never fails.
abbrev IsSent : Text → Text → ParsedPacket → Type 0
IsSent src dst p = (p.src_addr ≡ src) × (p.dst_addr ≡ dst)

parse_tcp-total :
    (payload : List ℕ) (src dst : Text) (total : ℕ)
    → Gives (IsSent src dst) (parse_tcp payload src dst total)
unfolding parse_tcp
parse_tcp-total payload src dst total = ground (
  arith,
  unpack_ports-total (slice 0 4 payload),
  length-slice 0 4 payload,
  get_elem?-total payload 13,
)

parse_udp-total :
    (payload : List ℕ) (src dst : Text) (total : ℕ)
    → Gives (IsSent src dst) (parse_udp payload src dst total)
unfolding parse_udp
parse_udp-total payload src dst total =
    ground (arith, unpack_ports-total (slice 0 4 payload), length-slice 0 4 payload)

parse_transport-total :
    (proto_num : ℕ) (payload : List ℕ) (src dst : Text) (total : ℕ)
    → Gives (IsSent src dst) (parse_transport proto_num payload src dst total)
unfolding parse_transport parse_icmp
parse_transport-total proto_num payload src dst total =
    ground (arith, parse_tcp-total payload src dst total, parse_udp-total payload src dst total)

-- The checks of `parse_ipv4_packet`: 20 bytes, version 4, and a header that is no shorter than 20 bytes and is there whole.
abbrev pub is_ipv4 : List ℕ → Bool
is_ipv4 [] = false
is_ipv4 (b ∷ bytes) =
    leb 19 (length bytes)
    && b / 16 == 4
    && leb 20 (b % 16 * 4)
    && leb (b % 16 * 4) (length bytes + 1)

abbrev pub CarriesAddresses : List ℕ → ParsedPacket → Type 0
CarriesAddresses bytes p =
    (p.src_addr ≡ format_ipv4 (slice 12 16 bytes)) × (p.dst_addr ≡ format_ipv4 (slice 16 20 bytes))

parse_fields-total :
    (bytes : List ℕ) (header_len : ℕ)
    → 20 ≤ length bytes
    → Gives (CarriesAddresses bytes) (parse_fields bytes header_len)
unfolding parse_fields
parse_fields-total bytes header_len h =
    let (proto_num, e) = get_elem?-total bytes 9 (omega arith) in
    rw (unpack_u16-total (slice 2 4 bytes) (length-slice 2 4 bytes (omega arith) (omega arith)), e)
      (parse_transport-total proto_num (drop header_len bytes) (format_ipv4 (slice 12 16 bytes))
        (format_ipv4 (slice 16 20 bytes)) _)

-- What the parser gives, by whether the checks pass.
abbrev pub IsAccepted : List ℕ → Bool → Option ParsedPacket → Type 0
IsAccepted bytes true r = Gives (CarriesAddresses bytes) r
IsAccepted bytes false r = r ≡ none

-- `parse_ipv4_packet` gives a packet, with the addresses of the header, exactly for the bytes that pass
-- its checks: no exception is ever behind a `None`.
pub parse_ipv4_packet-IsAccepted :
    (bytes : List ℕ) → IsAccepted bytes (is_ipv4 bytes) (parse_ipv4_packet bytes)
unfolding parse_ipv4_packet parse_checked
parse_ipv4_packet-IsAccepted [] = refl
parse_ipv4_packet-IsAccepted (b ∷ bytes) = elim (Bool-cases (is_ipv4 (b ∷ bytes))) [
  | inl passed ↦ rw passed (ground (arith, parse_fields-total (b ∷ bytes) (b % 16 * 4)))
  | inr refused ↦ rw refused (ground arith)
]
