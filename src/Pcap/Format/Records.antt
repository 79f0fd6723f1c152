-- ===== src/Pcap/Format/Records.antt =====
-- The records that `iter_write_pcap` wrote, read back one by one, whatever the payloads hold.

use mathlib.Core.List.{flatten, append_assoc}
use net_audit.Common.{
  ℕ, zero, suc, ◌+◌, ◌%◌, ◌^◌, ◌≤◌, ◌<◌, ◌≡◌, refl, sym, ap, ◌∙◌, false, none, some, List, [], ◌∷◌,
  ◌++◌, map, arith, length, length-append, take-append, drop-append, All,
}
use net_audit.Struct.{little, pack}
use net_audit.Struct.Laws.{length-pack, unpack-pack, pack_total}
use net_audit.Pcap.Format.{
  ok, GlobalHeader, PacketRecord, absolute_max_packet_len, advance, record_header_format,
  record_header_len, write_packet_record, Capture, write_records,
}
use net_audit.Pcap.Format.Reader.{
  yielded, read_packet, read_record, returned, Reading, read_from, read_header, then_read,
}

abbrev pub CaptureFits : Capture → Type 0
CaptureFits c = (c.orig_len < 2 ^ 32) × (length c.payload ≤ absolute_max_packet_len)

-- Seconds and fractions are written modulo 2^32.
abbrev pub as_record : Capture → PacketRecord
as_record c = record {
  ts_sec = c.ts_sec % 2 ^ 32;
  ts_frac = c.ts_usec % 2 ^ 32;
  incl_len = length c.payload;
  orig_len = c.orig_len;
  payload = c.payload;
  nanosecond = false;
}

abbrev record_values : Capture → List ℕ
record_values c = c.ts_sec % 2 ^ 32 ∷ c.ts_usec % 2 ^ 32 ∷ length c.payload ∷ c.orig_len ∷ []

written_record :
    (c : Capture)
    → CaptureFits c
    → (front : List ℕ) × (pack little record_header_format (record_values c) ≡ some front)
      × (write_packet_record c.ts_sec c.ts_usec (length c.payload) c.orig_len c.payload
          ≡ ok (front ++ c.payload))
unfolding write_packet_record
written_record c h =
    let (front, e) = pack_total little record_header_format (record_values c) (omega arith) in
    (front, e, ground arith)

advance-append :
    (front rest : List ℕ) (n before : ℕ)
    → n ≡ length front
    → advance n (record { position = before; unread = front ++ rest })
      ≡ record { position = before + n; unread = rest }
advance-append front rest n before h =
    rw (take-append front rest n h, drop-append front rest n h, ← h)

-- The record header, with any bytes behind it.
read_record_header :
    (header : GlobalHeader) (size count before : ℕ) (c : Capture) (front rest : List ℕ)
    → header.byte_order ≡ little
    → pack little record_header_format (record_values c) ≡ some front
    → read_record header (some size) count (record { position = before; unread = front ++ rest })
      ≡ read_packet header.nanosecond
          (some size)
          count
          before
          (record { position = before + record_header_len; unread = rest })
          (record_values c)
unfolding read_record
read_record_header header size count before c front rest order e =
    let width : length front ≡ record_header_len =
      length-pack little record_header_format (record_values c) e in
    rw
      (
        advance-append front rest record_header_len before (sym width),
        take-append front rest record_header_len (sym width),
      )
      (unfold read_header in
        rw (width, order, unpack-pack little record_header_format (record_values c) e, read_header))

-- The packet data, with any bytes behind it.
read_packet_data :
    (size count before : ℕ) (c : Capture) (rest : List ℕ)
    → CaptureFits c
    → before + record_header_len + length (c.payload ++ rest) ≡ size
    → read_packet false
        (some size)
        count
        before
        (record { position = before + record_header_len; unread = c.payload ++ rest })
        (record_values c)
      ≡ yielded
          (as_record c)
          (record { position = before + record_header_len + length c.payload; unread = rest })
unfolding read_packet
read_packet_data size count before c rest h whole =
    rw
      (
        take-append c.payload rest (length c.payload) refl,
        drop-append c.payload rest (length c.payload) refl,
      )
      (ground (arith, length-append c.payload rest))

-- One round of the reader on a written record.
read_record-written :
    (header : GlobalHeader) (size count before : ℕ) (c : Capture) (front rest : List ℕ)
    → CaptureFits c
    → header.byte_order ≡ little
    → header.nanosecond ≡ false
    → pack little record_header_format (record_values c) ≡ some front
    → before + record_header_len + length (c.payload ++ rest) ≡ size
    → read_record header
        (some size)
        count
        (record { position = before; unread = front ++ (c.payload ++ rest) })
      ≡ yielded
          (as_record c)
          (record { position = before + record_header_len + length c.payload; unread = rest })
read_record-written header size count before c front rest h order nanos e whole =
    read_record_header header size count before c front (c.payload ++ rest) order e
    ∙ rw nanos (read_packet_data size count before c rest h whole)

abbrev pub all_read : List Capture → Reading
all_read cs = record { records = map as_record cs; ending = returned }

pub read_from-written :
    (fuel : ℕ) (header : GlobalHeader) (size count before : ℕ) (cs : List Capture)
    → All CaptureFits cs
    → header.byte_order ≡ little
    → header.nanosecond ≡ false
    → before + length (flatten (write_records cs).chunks) ≡ size
    → length (flatten (write_records cs).chunks) < fuel
    → ((write_records cs).failure ≡ none)
      × (read_from fuel header
            (some size)
            none
            count
            (record { position = before; unread = flatten (write_records cs).chunks })
          ≡ all_read cs)
unfolding read_from write_records flatten read_header
read_from-written zero header size count before cs fits order nanos whole enough =
    absurd (omega arith)
read_from-written (suc fuel) header size count before [] fits order nanos whole enough =
    (refl, unfold read_record in refl)
read_from-written (suc fuel) header size count before (c ∷ cs) fits order nanos whole enough =
    let (front, e, chunk) = written_record c fits.0 in
    let rest = flatten (write_records cs).chunks in
    let width : length front ≡ 16 = length-pack little record_header_format (record_values c) e in
    let lengths = length-append front (c.payload ++ rest) in
    let sizes = length-append c.payload rest in
    let bytes : flatten (write_records (c ∷ cs)).chunks ≡ front ++ (c.payload ++ rest) =
      rw (chunk, write_records) (append_assoc front c.payload rest) in
    let total : length (flatten (write_records (c ∷ cs)).chunks)
        ≡ 16 + (length c.payload + length rest) =
      ap length bytes ∙ omega arith in
    let later =
      read_from-written fuel header size (count + 1) (before + record_header_len + length c.payload)
        cs fits.1 order nanos (omega arith) (omega arith) in
    (
      rw (chunk, write_records) later.0,
      ap
            (λ u.
              read_from (suc fuel) header (some size) none count
                (record { position = before; unread = u }))
            bytes
          ∙ rw
              (
                read_record-written header size count before c front rest fits.0 order nanos e
                    (omega arith),
                read_from,
              )
              (ap (then_read (as_record c)) later.1),
    )
