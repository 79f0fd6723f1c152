-- ===== src/Pcap/Ng/ByteOrderBug.antt =====
-- The first block's length is read little-endian, before the byte-order magic in its body is seen.
use net_audit.Struct.Words.{length-to_bytes}
use net_audit.Pcap.Format.{at_start, raised, pcap_error, PcapError, Stream, ok}
use net_audit.Struct.{to_bytes, big, unpack, little}
use net_audit.Common.{
  length, take, drop, take-append, drop-append, ℕ, suc, ◌+◌, ◌*◌, ◌^◌, ◌≤◌, ◌<◌, ◌≡◌, refl, sym, ap,
  ◌∙◌, true, false, Option, List, ◌++◌, arith,
}
use net_audit.Pcap.Ng.{Scale, is_pcapng, frame_block, read_body, bt_section_header, bad}
use net_audit.Pcap.Format.Reader.{unpack_u32, at_limit, broke}
use net_audit.Pcap.Ng.Blocks.{read_pcapng, all_blocks, blocks_from, stops, first_pull, new_section}

-- A big-endian file: the section header's type and total length, and whatever follows.
abbrev pub big_endian_file : ℕ → List ℕ → List ℕ
big_endian_file total rest = to_bytes big 4 bt_section_header ++ (to_bytes big 4 total ++ rest)

first_four :
    (total : ℕ) (rest : List ℕ)
    → take 4 (big_endian_file total rest) ≡ to_bytes big 4 bt_section_header
unfolding to_bytes
first_four total rest = refl

big_endian-sniffed : is_pcapng (to_bytes big 4 bt_section_header) ≡ ok true
unfolding is_pcapng to_bytes unpack_u32 unpack
big_endian-sniffed = refl

section_type : unpack_u32 little (to_bytes big 4 bt_section_header) ≡ ok bt_section_header
unfolding to_bytes unpack_u32 unpack
section_type = refl

reversed_length :
    (total : ℕ) → total < 256 → unpack_u32 little (to_bytes big 4 total) ≡ ok (total * 2 ^ 24)
unfolding to_bytes unpack_u32 unpack
reversed_length total h = ground arith

reversed_block :
    (size : Option ℕ) (consumed total : ℕ) (rest : List ℕ) (f : Stream)
    → 28 ≤ total
    → total < 256
    → f.unread ≡ to_bytes big 4 total ++ rest
    → frame_block little size consumed (to_bytes big 4 bt_section_header) f
      ≡ bad (pcap_error (PcapError.oversized_block (total * 2 ^ 24)))
unfolding frame_block read_body
reversed_block size consumed total rest f low high e =
    let four : take 4 f.unread ≡ to_bytes big 4 total =
      ap (take 4) e
      ∙ take-append (to_bytes big 4 total) rest 4 (sym (length-to_bytes big 4 total)) in
    rw
      (
        four,
        section_type,
        reversed_length total high,
        length-to_bytes big 4 total,
        length-to_bytes big 4 bt_section_header,
      )
      (ground arith)

reversed_blocks :
    (scale : Scale) (size limit : Option ℕ) (total : ℕ) (rest : List ℕ) (f : Stream)
    → 28 ≤ total
    → total < 256
    → at_limit limit 0 ≡ false
    → f.unread ≡ to_bytes big 4 total ++ rest
    → all_blocks scale size limit (to_bytes big 4 bt_section_header) f
      ≡ stops new_section (broke (pcap_error (PcapError.oversized_block (total * 2 ^ 24))))
unfolding all_blocks blocks_from
reversed_blocks scale size limit total rest f low high more e =
    let fuel : length f.unread + 5 ≡ suc (length f.unread + 4) = omega arith in
    rw (fuel, more, reversed_block size 0 total rest f low high e, blocks_from)

-- With no limit on the packets, or one that is not 0, every big-endian pcapng file whose section header
-- has its usual length, from 28 bytes to less than 256, is refused as oversized, whatever the file holds
-- behind it: the length is read little-endian.
pub big_endian_pcapng-refused :
    (scale : Scale) (total : ℕ) (rest : List ℕ) (size limit : Option ℕ)
    → 28 ≤ total
    → total < 256
    → at_limit limit 0 ≡ false
    → read_pcapng scale (at_start (big_endian_file total rest)) size limit
      ≡ raised (pcap_error (PcapError.oversized_block (total * 2 ^ 24)))
unfolding read_pcapng
big_endian_pcapng-refused scale total rest size limit low high more =
    let f : Stream = record {
      position = 0 + length (to_bytes big 4 bt_section_header);
      unread = drop 4 (big_endian_file total rest);
    } in
    let behind : f.unread ≡ to_bytes big 4 total ++ rest =
      drop-append (to_bytes big 4 bt_section_header) (to_bytes big 4 total ++ rest) 4
        (sym (length-to_bytes big 4 bt_section_header)) in
    rw (first_four total rest, big_endian-sniffed)
      (ap first_pull (reversed_blocks scale size limit total rest f low high more behind))
