-- ===== src/Pcap/Ng/Totality.antt =====
-- The pcapng reader on any bytes: what it raises, that its loop ends, and what it buffers.
use net_audit.Pcap.Ng.Options.{parse_options-total}
use net_audit.Common.{
  ℕ, ◌+◌, ◌-◌, ◌≤◌, ◌≡◌, Option, none, some, List, [], ◌∷◌, arith, length, take, drop, length-take,
  length-drop, ltb, Bool-cases, inl, inr, ltb→ge, ◌||◌,
}
use net_audit.Struct.{ByteOrder, little, fields, from_bytes}
use net_audit.Struct.Laws.{unpack_total, length-fields}
use net_audit.Pcap.Format.{Result, ok, raised, PacketRecord, Stream, absolute_max_block_len}
use net_audit.Pcap.Format.Totality.{IsPcapError, RecordFits, unpack_u32-total}
use net_audit.Pcap.Ng.{
  Scale, Section, Resolution, Framed, no_more, bad, block, read_body, frame_block, parse_if_tsresol,
  read_words,
}
use net_audit.Pcap.Ng.Blocks.{
  Handled, section_header, interface_description, enhanced_packet, handle_block, add_interface,
  interface_fields, packet_fields,
}

-- What a block takes from the file.
abbrev pub FrameFits : ℕ → Framed → Type 0
FrameFits available no_more = Unit
FrameFits available (bad e) = IsPcapError e
FrameFits available (block btype body total f) =
    (12 ≤ total)
    × (total ≤ absolute_max_block_len)
    × (length body + 12 ≡ total)
    × (available ≡ total + length f.unread)

read_body-FrameFits :
    (o : ByteOrder) (size : Option ℕ) (consumed btype total : ℕ) (f : Stream)
    → FrameFits (8 + length f.unread) (read_body o size consumed btype total f)
unfolding read_body
read_body-FrameFits o size consumed btype total f =
    let n = total - 12 + 4 in
    let got = take n f.unread in
    ground (
      arith,
      unpack_u32-total o (drop (total - 12) got),
      length-take n f.unread,
      length-drop n f.unread,
      length-drop (total - 12) got,
      length-take (total - 12) got,
    )

read_words-FrameFits :
    (o : ByteOrder) (size : Option ℕ) (consumed btype total : ℕ) (f : Stream)
    → FrameFits (8 + length f.unread) (read_words o size consumed f (ok btype) (ok total))
read_words-FrameFits o size consumed btype total f =
    read_body-FrameFits o size consumed btype total f

pub frame_block-FrameFits :
    (o : ByteOrder) (size : Option ℕ) (consumed : ℕ) (btype_raw : List ℕ) (f : Stream)
    → length btype_raw ≤ 4
    → FrameFits (length btype_raw + length f.unread) (frame_block o size consumed btype_raw f)
unfolding frame_block
frame_block-FrameFits o size consumed btype_raw f h =
    elim (Bool-cases (ltb (length btype_raw) 4 || ltb (length f.unread) 4)) [
      | inl short ↦ ground (arith, length-take 4 f.unread)
      | inr full ↦
          let four : length btype_raw ≡ 4 = ground arith in
          let there : 4 ≤ length f.unread = ground arith in
          let taken : length (take 4 f.unread) ≡ 4 = omega (arith, length-take 4 f.unread) in
          let whole : 4 + length f.unread ≡ 8 + length (drop 4 f.unread) =
            omega (arith, length-drop 4 f.unread) in
          rw
            (
              four,
              taken,
              unpack_u32-total o btype_raw four,
              unpack_u32-total o (take 4 f.unread) taken,
              whole,
            )
            (read_body-FrameFits o size consumed (from_bytes o (take 4 btype_raw))
              (from_bytes o (take 4 (take 4 f.unread)))
              (record { position = f.position + 4; unread = drop 4 f.unread }))
    ]

abbrev pub PacketFits : ℕ → Option PacketRecord → Type 0
PacketFits size none = Unit
PacketFits size (some r) = RecordFits r × (20 + r.incl_len ≤ size)

abbrev pub HandledFits : ℕ → Result Handled → Type 0
HandledFits size (raised e) = IsPcapError e
HandledFits size (ok h) = PacketFits size h.packet

section_header-HandledFits :
    (s : Section) (body : List ℕ) → HandledFits (length body) (section_header s body)
unfolding section_header
section_header-HandledFits s body =
    ground (arith, unpack_u32-total little (take 4 body), length-take 4 body)

add_interface-HandledFits :
    (n : ℕ) (s : Section) (linktype snaplen : ℕ) (r : Result Resolution) (found : Resolution)
    → r ≡ ok found
    → HandledFits n (add_interface s linktype snaplen r)
add_interface-HandledFits n s linktype snaplen r found e = rw e tt

interface_fields-HandledFits :
    (n : ℕ) (s : Section) (options vs : List ℕ)
    → length vs ≡ 3
    → HandledFits n (interface_fields s options vs)
interface_fields-HandledFits n s options (linktype ∷ reserved ∷ snaplen ∷ []) h =
    let (found, e) =
      parse_options-total (length options) s.byte_order options (Resolution.decimal 6) in
    unfold parse_if_tsresol in ground (arith, e)
interface_fields-HandledFits n s options vs h = ground arith

interface_description-HandledFits :
    (s : Section) (body : List ℕ) → HandledFits (length body) (interface_description s body)
unfolding interface_description
interface_description-HandledFits s body = elim (Bool-cases (ltb (length body) 8)) [
  | inl short ↦ ground arith
  | inr full ↦
      rw
        (
          full,
          unpack_total s.byte_order (2 ∷ 2 ∷ 4 ∷ []) (take 8 body)
              (omega (arith, length-take 8 body, ltb→ge (length body) 8 full)),
          interface_description,
        )
        (interface_fields-HandledFits (length body) s (drop 8 body)
          (fields s.byte_order (2 ∷ 2 ∷ 4 ∷ []) (take 8 body))
          (length-fields s.byte_order (2 ∷ 2 ∷ 4 ∷ []) (take 8 body)))
]

module _ (scale : Scale) where
  packet_fields-HandledFits :
      (s : Section) (body vs : List ℕ)
      → length vs ≡ 5
      → HandledFits (length body) (packet_fields scale s body vs)
  packet_fields-HandledFits s body (if_id ∷ high ∷ low ∷ cap_len ∷ orig_len ∷ []) h =
      ground (arith, length-drop 20 body, length-take (20 + cap_len - 20) (drop 20 body))
  packet_fields-HandledFits s body vs h = ground arith

  enhanced_packet-HandledFits :
      (s : Section) (body : List ℕ) → HandledFits (length body) (enhanced_packet scale s body)
  unfolding enhanced_packet
  enhanced_packet-HandledFits s body = elim (Bool-cases (ltb (length body) 20)) [
    | inl short ↦ ground arith
    | inr full ↦
        rw
          (
            full,
            unpack_total s.byte_order (4 ∷ 4 ∷ 4 ∷ 4 ∷ 4 ∷ []) (take 20 body)
                (omega (arith, length-take 20 body, ltb→ge (length body) 20 full)),
            enhanced_packet,
          )
          (packet_fields-HandledFits s body
            (fields s.byte_order (4 ∷ 4 ∷ 4 ∷ 4 ∷ 4 ∷ []) (take 20 body))
            (length-fields s.byte_order (4 ∷ 4 ∷ 4 ∷ 4 ∷ 4 ∷ []) (take 20 body)))
  ]

  pub handle_block-HandledFits :
      (s : Section) (btype : ℕ) (body : List ℕ)
      → HandledFits (length body) (handle_block scale s btype body)
  unfolding handle_block
  handle_block-HandledFits s btype body = ground (
    arith,
    section_header-HandledFits s body,
    interface_description-HandledFits s body,
    enhanced_packet-HandledFits s body,
  )
