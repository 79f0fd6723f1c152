-- ===== src/Packet/Frames.antt =====
-- The dissector gives fields for every frame: none of its reads is out of range.
use net_audit.Struct.{fields, big}
use net_audit.Common.Text.{Text, join, codes, hexadecimal}
use net_audit.Packet.{format_ipv4}
use net_audit.Common.{
  ltb, leb, ◌==◌, ltb→ge, Bool-cases, length, drop, slice, ℕ, ◌*◌, ◌%◌, ◌≤◌, ◌≡◌, inl, inr, ◌&&◌,
  some, List, [], ◌∷◌, map, arith,
}
use net_audit.Packet.Totality.{
  Gives, unpack_ports-total, get_elem?-total, unpack_u16-total, length-slice,
}
use net_audit.Packet.Dissect.{
  dissect_frame, Dissected, dissect_l4, dissect_ipv4_fields, dissect_ipv4, format_ipv6,
  dissect_ipv6, dissect_raw_ip, dissect_ethertype, dissect_tagged, dissect_ethernet,
  dissect_ipv4_header, dissect_version, undissected,
}
use net_audit.Struct.Laws.{unpack_total}

-- What the dissector gives keeps the addresses of the result that it fills in.
abbrev pub KeepsAddresses : Dissected → Dissected → Type 0
KeepsAddresses result d = (d.src_addr ≡ result.src_addr) × (d.dst_addr ≡ result.dst_addr)

pub dissect_l4-total :
    (proto_num : ℕ) (buf : List ℕ) (result : Dissected)
    → Gives (KeepsAddresses result) (dissect_l4 proto_num buf result)
unfolding dissect_l4
dissect_l4-total proto_num buf result =
    ground (arith, unpack_ports-total (slice 0 4 buf), length-slice 0 4 buf, get_elem?-total buf 13)

-- The addresses of the IPv4 header at the front of the buffer.
abbrev pub ShowsAddresses : List ℕ → Dissected → Type 0
ShowsAddresses buf d =
    (d.src_addr ≡ some (format_ipv4 (slice 12 16 buf)))
    × (d.dst_addr ≡ some (format_ipv4 (slice 16 20 buf)))

pub dissect_ipv4_fields-total :
    (buf : List ℕ) (ihl : ℕ) (result : Dissected)
    → 20 ≤ length buf
    → Gives (ShowsAddresses buf) (dissect_ipv4_fields buf ihl result)
unfolding dissect_ipv4_fields
dissect_ipv4_fields-total buf ihl result h =
    let (proto_num, e) = get_elem?-total buf 9 (omega arith) in
    rw e (
      dissect_l4-total proto_num (drop ihl buf) (record result {
        src_addr = some (format_ipv4 (slice 12 16 buf));
        dst_addr = some (format_ipv4 (slice 16 20 buf));
      }))

abbrev pub IsGiven : Dissected → Type 0
IsGiven d = Unit

dissect_ipv4-total : (buf : List ℕ) (result : Dissected) → Gives IsGiven (dissect_ipv4 buf result)
unfolding dissect_ipv4 dissect_ipv4_header
dissect_ipv4-total [] result = tt
dissect_ipv4-total (b ∷ buf) result =
    ground (arith, dissect_ipv4_fields-total (b ∷ buf) (b % 16 * 4) result)

format_ipv6-total : (raw : List ℕ) → length raw ≡ 16 → (t : Text) × (format_ipv6 raw ≡ some t)
unfolding format_ipv6
format_ipv6-total raw h = (
  join (codes ":") (map hexadecimal (fields big (2 ∷ 2 ∷ 2 ∷ 2 ∷ 2 ∷ 2 ∷ 2 ∷ 2 ∷ []) raw)),
  rw (unpack_total big (2 ∷ 2 ∷ 2 ∷ 2 ∷ 2 ∷ 2 ∷ 2 ∷ 2 ∷ []) raw h, format_ipv6),
)

dissect_ipv6-total : (buf : List ℕ) (result : Dissected) → Gives IsGiven (dissect_ipv6 buf result)
unfolding dissect_ipv6
dissect_ipv6-total buf result = elim (Bool-cases (ltb (length buf) 40)) [
  | inl short ↦ rw short tt
  | inr full ↦
      let (next_header, e) = get_elem?-total buf 6 (omega (arith, ltb→ge (length buf) 40 full)) in
      let (src, p) =
        format_ipv6-total (slice 8 24 buf)
          (length-slice 8 24 buf (omega arith) (omega (arith, ltb→ge (length buf) 40 full))) in
      let (dst, q) =
        format_ipv6-total (slice 24 40 buf)
          (length-slice 24 40 buf (omega arith) (omega (arith, ltb→ge (length buf) 40 full))) in
      rw (full, e, p, q)
        (ground (
          arith,
          dissect_l4-total next_header (drop 40 buf)
              (record result { src_addr = some src; dst_addr = some dst }),
        ))
]

dissect_raw_ip-total : (bytes : List ℕ) → Gives IsGiven (dissect_raw_ip bytes)
unfolding dissect_raw_ip dissect_version
dissect_raw_ip-total [] = tt
dissect_raw_ip-total (b ∷ bytes) =
    ground (
      arith,
      dissect_ipv4-total (b ∷ bytes) undissected,
      dissect_ipv6-total (b ∷ bytes) undissected,
    )

dissect_ethertype-total :
    (ethertype : ℕ) (buf : List ℕ) → Gives IsGiven (dissect_ethertype ethertype buf)
unfolding dissect_ethertype
dissect_ethertype-total ethertype buf =
    ground (arith, dissect_ipv4-total buf undissected, dissect_ipv6-total buf undissected)

dissect_tagged-total :
    (ethertype : ℕ) (bytes : List ℕ)
    → 14 ≤ length bytes
    → Gives IsGiven (dissect_tagged ethertype bytes)
unfolding dissect_tagged
dissect_tagged-total ethertype bytes h =
    elim (Bool-cases (ethertype == 0x8100 && leb 18 (length bytes))) [
      | inl tagged ↦
          rw
            (
              tagged,
              unpack_u16-total (slice 16 18 bytes)
                  (length-slice 16 18 bytes (omega arith) (ground arith)),
            )
            (dissect_ethertype-total _ (drop 18 bytes))
      | inr plain ↦ rw plain (dissect_ethertype-total ethertype (drop 14 bytes))
    ]

dissect_ethernet-total : (bytes : List ℕ) → Gives IsGiven (dissect_ethernet bytes)
unfolding dissect_ethernet
dissect_ethernet-total bytes = elim (Bool-cases (ltb (length bytes) 14)) [
  | inl short ↦ rw short tt
  | inr full ↦
      let room : 14 ≤ length bytes = ltb→ge (length bytes) 14 full in
      rw (full, unpack_u16-total (slice 12 14 bytes) (length-slice 12 14 bytes (omega arith) room))
        (dissect_tagged-total _ bytes room)
]

-- `dissect_frame` never raises: whatever the link type and the bytes of the frame, it gives fields.
pub dissect_frame-total :
    (linktype : ℕ) (bytes : List ℕ) → Gives IsGiven (dissect_frame linktype bytes)
unfolding dissect_frame
dissect_frame-total linktype bytes =
    ground (arith, dissect_ethernet-total bytes, dissect_raw_ip-total bytes)
