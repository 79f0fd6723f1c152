-- ===== src/Pcap/Ng/Loop.antt =====
-- The loop of the pcapng reader over any bytes, and `read_pcapng` as a whole.
use net_audit.Struct.{from_bytes, little, big}
use net_audit.Pcap.Ng.Totality.{
  HandledFits, PacketFits, FrameFits, frame_block-FrameFits, handle_block-HandledFits,
}
use net_audit.Pcap.Ng.{
  Section, Scale, Framed, is_pcapng, frame_block, bad, block, no_more, bt_section_header,
}
use net_audit.Pcap.Format.Totality.{EndsWell, RecordFits, IsPcapError, unpack_u32-total}
use net_audit.Pcap.Format.{PacketRecord, Result, raised, ok, Stream, advance}
use net_audit.Common.{
  ltb, ◌==◌, Bool-cases, length, take, drop, All, length-take, length-drop, ℕ, zero, suc, ◌+◌, ◌≤◌,
  ◌<◌, ◌≡◌, inl, inr, Bool, true, false, not, ◌&&◌, ◌||◌, Option, none, some, List, [], ◌∷◌, arith,
}
use net_audit.Pcap.Ng.Blocks.{
  Blocks, Handled, after_handled, yields, blocks_from, first_pull, read_pcapng, all_blocks,
  after_frame, next_count, handle_block, when_pcapng, new_section,
}
use net_audit.Pcap.Format.Reader.{at_limit}

-- The bytes that the records take in the file: each packet block has 32 bytes beside the data.
abbrev pub block_bytes_of : List PacketRecord → ℕ
block_bytes_of [] = 0
block_bytes_of (r ∷ rs) = 32 + r.incl_len + block_bytes_of rs

abbrev pub BlocksFit : ℕ → Blocks → Type 0
BlocksFit size b = EndsWell b.ending × All RecordFits b.records × (block_bytes_of b.records ≤ size)

yields-BlocksFit :
    (s : Section) (total later size n : ℕ) (packet : Option PacketRecord) (b : Blocks)
    → n + 12 ≡ total
    → PacketFits n packet
    → size ≡ total + later
    → BlocksFit later b
    → BlocksFit size (yields s packet b)
yields-BlocksFit s total later size n none b t h z k = (k.0, k.1, omega arith)
yields-BlocksFit s total later size n (some r) b t h z k = (k.0, (h.0, k.1), omega arith)

after_handled-BlocksFit :
    (s : Section) (total later size n : ℕ) (h : Result Handled) (next : Handled → Blocks)
    → n + 12 ≡ total
    → HandledFits n h
    → size ≡ total + later
    → ((k : Handled) → BlocksFit later (next k))
    → BlocksFit size (after_handled s h next)
after_handled-BlocksFit s total later size n (raised e) next t h z k = (h, tt, omega arith)
after_handled-BlocksFit s total later size n (ok h) next t fits z k =
    yields-BlocksFit h.section total later size n h.packet (next h) t fits z (k h)

module _ (scale : Scale) where
  after_frame-BlocksFit :
      (s : Section) (size : ℕ) (framed : Framed) (next : Handled → ℕ → Stream → Blocks)
      → FrameFits size framed
      → ((k : Handled) (total : ℕ) (f : Stream)
          → length f.unread + 12 ≤ size
          → BlocksFit (length f.unread) (next k total f))
      → BlocksFit size (after_frame scale s framed next)
  after_frame-BlocksFit s size no_more next h k = (tt, tt, omega arith)
  after_frame-BlocksFit s size (bad e) next h k = (h, tt, omega arith)
  after_frame-BlocksFit s size (block btype body total f) next h k =
      after_handled-BlocksFit s total (length f.unread) size (length body)
        (handle_block scale s btype body) (λ t. next t total f) h.2
        (handle_block-HandledFits scale s btype body) h.3 (λ t. k t total f (omega arith))

  blocks_from-BlocksFit :
      (fuel : ℕ) (size limit : Option ℕ) (s : Section) (consumed count : ℕ) (btype_raw : List ℕ)
      (f : Stream)
      → length btype_raw ≤ 4
      → length btype_raw + length f.unread < fuel
      → BlocksFit
          (length btype_raw + length f.unread)
          (blocks_from scale fuel size limit s consumed count btype_raw f)
  unfolding blocks_from
  blocks_from-BlocksFit zero size limit s consumed count btype_raw f h k = absurd (omega arith)
  blocks_from-BlocksFit (suc fuel) size limit s consumed count btype_raw f h k =
      elim (Bool-cases (at_limit limit count)) [
        | inl stop ↦ rw (stop, blocks_from) (tt, tt, omega arith)
        | inr more ↦
            rw (more, blocks_from)
              (after_frame-BlocksFit s (length btype_raw + length f.unread)
                (frame_block s.byte_order size consumed btype_raw f)
                (λ t total g.
                  blocks_from scale fuel size limit t.section (consumed + total)
                    (next_count t.packet count) (take 4 g.unread) (advance 4 g))
                (frame_block-FrameFits s.byte_order size consumed btype_raw f h)
                (λ t total g less.
                  let split : length (take 4 g.unread) + length (drop 4 g.unread)
                      ≡ length g.unread =
                    omega (arith, length-take 4 g.unread, length-drop 4 g.unread) in
                  rw split at (
                    blocks_from-BlocksFit fuel size limit t.section (consumed + total)
                      (next_count t.packet count) (take 4 g.unread) (advance 4 g)
                      (omega (arith, length-take 4 g.unread)) (omega (arith, split)))))
      ]

abbrev pub PulledFits : ℕ → Result Blocks → Type 0
PulledFits size (raised e) = IsPcapError e
PulledFits size (ok b) = BlocksFit size b

first_pull-PulledFits : (size : ℕ) (b : Blocks) → BlocksFit size b → PulledFits size (first_pull b)
first_pull-PulledFits size b h = ground arith

pub is_pcapng_lem :
    (raw : List ℕ)
    → length raw ≤ 4
    → is_pcapng raw
      ≡ ok (
          not (ltb (length raw) 4)
          && (from_bytes little (take 4 raw) == bt_section_header
              || from_bytes big (take 4 raw) == bt_section_header))
unfolding is_pcapng
is_pcapng_lem raw h = ground (arith, unpack_u32-total little raw, unpack_u32-total big raw)

when_pcapng-PulledFits :
    (size : ℕ) (found : Bool) (later : Result Blocks)
    → PulledFits size later
    → PulledFits size (when_pcapng (ok found) later)
when_pcapng-PulledFits size true later h = h
when_pcapng-PulledFits size false later h = tt

-- Whatever the file holds, `read_pcapng` returns or raises a `PcapError`, and so does its generator,
-- whose loop ends; every packet has as many bytes as it declares, at most 4 MiB; and the packets take no
-- more bytes than the file has, 32 for each beside its data.
pub read_pcapng-PulledFits :
    (scale : Scale) (f : Stream) (size limit : Option ℕ)
    → PulledFits (length f.unread) (read_pcapng scale f size limit)
unfolding read_pcapng all_blocks
read_pcapng-PulledFits scale f size limit =
    let first4 = take 4 f.unread in
    let g = advance 4 f in
    let split : length first4 + length g.unread ≡ length f.unread =
      omega (arith, length-take 4 f.unread, length-drop 4 f.unread) in
    let fits =
      blocks_from-BlocksFit scale (length g.unread + 5) size limit new_section 0 0 first4 g
        (omega (arith, length-take 4 f.unread)) (omega (arith, length-take 4 f.unread)) in
    rw (is_pcapng_lem first4 (omega (arith, length-take 4 f.unread))) (
      when_pcapng-PulledFits (length f.unread) _ _
        (first_pull-PulledFits (length f.unread) _ (rw split at fits)))
