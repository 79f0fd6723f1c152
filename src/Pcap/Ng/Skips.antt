-- ===== src/Pcap/Ng/Skips.antt =====
-- Blocks that the reader does not interpret are passed over whole.
use net_audit.Pcap.Ng.Blocks.{blocks_from, handle_block}
use net_audit.Pcap.Format.Totality.{unpack_u32-total}
use net_audit.Struct.Words.{length-to_bytes, from_bytes-to_bytes}
use net_audit.Pcap.Format.{ok, absolute_max_block_len, advance}
use net_audit.Struct.{to_bytes, ByteOrder, from_bytes}
use net_audit.Common.{
  ltb, ==-refl, length, length-append, take-append, drop-append, ℕ, ◌+◌, ◌-◌, ◌%◌, ◌^◌, ◌≤◌, ◌<◌,
  ◌≡◌, ap, ◌∙◌, false, Option, List, ◌++◌, arith, take-all, sym, ◌≢◌, suc, take, none,
}
use net_audit.Pcap.Ng.{
  read_body, block_past_end, block, frame_block, Scale, Section, bt_section_header,
  bt_interface_description, bt_enhanced_packet,
}
use net_audit.Pcap.Format.Reader.{unpack_u32, at_limit}

unpack_u32-to_bytes : (o : ByteOrder) (n : ℕ) → n < 2 ^ 32 → unpack_u32 o (to_bytes o 4 n) ≡ ok n
unpack_u32-to_bytes o n h =
    let width = length-to_bytes o 4 n in
    unpack_u32-total o (to_bytes o 4 n) width
    ∙ ap (λ t. ok (from_bytes o t)) (take-all (to_bytes o 4 n) 4 width)
    ∙ ap ok (from_bytes-to_bytes o 4 n h)

framed_body :
    (o : ByteOrder) (size : Option ℕ) (consumed before btype total : ℕ) (body rest : List ℕ)
    → total ≡ length body + 12
    → total % 4 ≡ 0
    → total ≤ absolute_max_block_len
    → block_past_end size consumed total ≡ false
    → read_body o size consumed btype total
        (record { position = before; unread = (body ++ to_bytes o 4 total) ++ rest })
      ≡ block btype body total (record { position = before + (total - 8); unread = rest })
unfolding read_body
framed_body o size consumed before btype total body rest e aligned small inside =
    let trailer = to_bytes o 4 total in
    let whole = body ++ trailer in
    let width : total - 12 + 4 ≡ length whole =
      omega (arith, length-append body trailer, length-to_bytes o 4 total) in
    let inner : total - 12 ≡ length body = omega arith in
    let low : ltb total 12 ≡ false = ground arith in
    let high : ltb absolute_max_block_len total ≡ false = ground arith in
    let end : length whole ≡ total - 8 = omega arith in
    rw
      (
        take-append whole rest (total - 12 + 4) width,
        drop-append whole rest (total - 12 + 4) width,
        take-append body trailer (total - 12) inner,
        drop-append body trailer (total - 12) inner,
        unpack_u32-to_bytes o total (omega arith),
        ← width,
        aligned,
        low,
        high,
        inside,
        ==-refl (total - 12 + 4),
        ==-refl total,
      )
      (ground arith)

framed_block :
    (o : ByteOrder) (size : Option ℕ) (consumed before btype total : ℕ) (body rest : List ℕ)
    → btype < 2 ^ 32
    → total ≡ length body + 12
    → total % 4 ≡ 0
    → total ≤ absolute_max_block_len
    → block_past_end size consumed total ≡ false
    → frame_block o size consumed (to_bytes o 4 btype) (record {
      position = before;
      unread = to_bytes o 4 total ++ ((body ++ to_bytes o 4 total) ++ rest);
    })
      ≡ block btype body total (record { position = before + 4 + (total - 8); unread = rest })
unfolding frame_block
framed_block o size consumed before btype total body rest word e aligned small inside =
    let behind = (body ++ to_bytes o 4 total) ++ rest in
    let width : 4 ≡ length (to_bytes o 4 total) = sym (length-to_bytes o 4 total) in
    rw
      (
        take-append (to_bytes o 4 total) behind 4 width,
        drop-append (to_bytes o 4 total) behind 4 width,
        length-to_bytes o 4 total,
        length-to_bytes o 4 btype,
        unpack_u32-to_bytes o btype word,
        unpack_u32-to_bytes o total (omega arith),
      )
      (framed_body o size consumed (before + 4) btype total body rest e aligned small inside)

-- A block of a type that the reader does not interpret, laid out as the format says (its length a
-- multiple of 4, at most 16 MiB and inside the file), changes nothing: the reader goes on behind it with
-- the same section and the same count, and yields nothing for it.
pub blocks_from-skip :
    (scale : Scale) (fuel : ℕ) (size limit : Option ℕ) (s : Section)
    (consumed count before btype total : ℕ) (body rest : List ℕ)
    → btype < 2 ^ 32
    → btype ≢ bt_section_header
    → btype ≢ bt_interface_description
    → btype ≢ bt_enhanced_packet
    → total ≡ length body + 12
    → total % 4 ≡ 0
    → total ≤ absolute_max_block_len
    → block_past_end size consumed total ≡ false
    → at_limit limit count ≡ false
    → blocks_from scale
        (suc fuel)
        size
        limit
        s
        consumed
        count
        (to_bytes s.byte_order 4 btype)
        (record {
          position = before;
          unread =
              to_bytes s.byte_order 4 total ++ ((body ++ to_bytes s.byte_order 4 total) ++ rest);
        })
      ≡ blocks_from scale fuel size limit s
          (consumed + total)
          count
          (take 4 rest)
          (advance 4 (record { position = before + 4 + (total - 8); unread = rest }))
unfolding blocks_from
blocks_from-skip scale fuel size limit s consumed count before btype total body rest word a b c e
      aligned small inside more =
    let passed : handle_block scale s btype body ≡ ok (record { section = s; packet = none }) =
      unfold handle_block in ground arith in
    rw (
      more,
      framed_block s.byte_order size consumed before btype total body rest word e aligned small
          inside,
      passed,
      blocks_from,
    )
