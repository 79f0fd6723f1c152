-- ===== src/Pcap/Format/Totality.antt =====
-- The classic reader on any bytes: what it raises, that its loop ends, and what it buffers.
use Prim.Native.Nat.{zero}
use net_audit.Common.{
  ℕ, ◌≤◌, ◌≡◌, Bool, Option, none, some, List, [], ◌∷◌, arith, length, take, length-take, ltb,
  Bool-cases, inl, inr, ltb→ge, length-drop, refl, ◌+◌, All, ◌<◌, suc,
}
use net_audit.Struct.{ByteOrder, little, big, fields, from_bytes}
use net_audit.Struct.Laws.{unpack_total, length-fields}
use net_audit.Pcap.Format.{
  Raised, pcap_error, struct_error, value_error, Result, ok, raised, global_header_format, Stream,
  record_header_len, GlobalHeader, advance, record_header_format, absolute_max_packet_len,
  PacketRecord,
}
use net_audit.Pcap.Format.Reader.{
  unpack_u32, magic_lookup, parse_global_header, order_of_magic, header_of, with_magic,
  read_global_header, read_packet, read_record, Step, failed, yielded, end_of_file, End, Reading,
  read_from, read_pcap_records, broke, known_size, returned, out_of_fuel, at_limit, after_step,
  read_header,
}

-- The only errors are `PcapError`s.
abbrev pub IsPcapError : Raised → Type 0
IsPcapError (pcap_error e) = Unit
IsPcapError struct_error = ⊥
IsPcapError value_error = ⊥

abbrev pub RaisesOnlyPcap {ℓ} : {A : Type ℓ} → Result A → Type 0
RaisesOnlyPcap (ok a) = Unit
RaisesOnlyPcap (raised e) = IsPcapError e

pub unpack_u32-total :
    (o : ByteOrder) (raw : List ℕ)
    → length raw ≡ 4
    → unpack_u32 o raw ≡ ok (from_bytes o (take 4 raw))
unfolding unpack_u32 fields
unpack_u32-total o raw h = rw (unpack_total o (4 ∷ []) raw h, unpack_u32)

magic_lookup-total :
    (raw : List ℕ)
    → length raw ≡ 4
    → magic_lookup raw
      ≡ ok (order_of_magic (from_bytes little (take 4 raw)) (from_bytes big (take 4 raw)))
unfolding magic_lookup
magic_lookup-total raw h =
    rw (unpack_u32-total little raw h, unpack_u32-total big raw h, magic_lookup)

header_of-raises :
    (o : ByteOrder) (ns : Bool) (vs : List ℕ) → length vs ≡ 7 → RaisesOnlyPcap (header_of o ns vs)
header_of-raises o ns (a ∷ b ∷ c ∷ d ∷ e ∷ f ∷ g ∷ []) h = ground arith
header_of-raises o ns vs h = ground arith

with_magic-raises :
    (raw : List ℕ) (m : Option (ByteOrder × Bool))
    → length raw ≡ 24
    → RaisesOnlyPcap (with_magic raw m)
unfolding with_magic
with_magic-raises raw none h = tt
with_magic-raises raw (some (o, ns)) h =
    rw (unpack_total o global_header_format raw h, with_magic, RaisesOnlyPcap)
      (header_of-raises o ns (fields o global_header_format raw)
        (length-fields o global_header_format raw))

parse_global_header_full :
    (raw : List ℕ)
    → length raw ≡ 24
    → (m : Option (ByteOrder × Bool)) × (parse_global_header raw ≡ with_magic raw m)
unfolding parse_global_header
parse_global_header_full raw h = (
  order_of_magic (from_bytes little (take 4 (take 4 raw))) (from_bytes big (take 4 (take 4 raw))),
  ground (arith, magic_lookup-total (take 4 raw) (omega (arith, length-take 4 raw))),
)

parse_global_header-raises :
    (raw : List ℕ) → length raw ≤ 24 → RaisesOnlyPcap (parse_global_header raw)
unfolding parse_global_header
parse_global_header-raises raw h = elim (Bool-cases (ltb (length raw) 24)) [
  | inl short ↦ ground arith
  | inr full ↦
      let (m, e) = parse_global_header_full raw (omega (arith, ltb→ge _ _ full)) in
      rw e (with_magic-raises raw m (omega (arith, ltb→ge _ _ full)))
]

-- Whatever the file holds, `read_global_header` returns a header or raises a `PcapError`.
pub read_global_header-raises : (f : Stream) → RaisesOnlyPcap (read_global_header f).0
unfolding read_global_header
read_global_header-raises f =
    parse_global_header-raises (take 24 f.unread) (omega (arith, length-take 24 f.unread))

-- What one round of the loop does.
abbrev pub StepFits : Stream → Step → Type 0
StepFits f end_of_file = f.unread ≡ []
StepFits f (failed e) = IsPcapError e
StepFits f (yielded r f') =
    (length r.payload ≡ r.incl_len)
    × (r.incl_len ≤ absolute_max_packet_len)
    × (length f.unread ≡ record_header_len + r.incl_len + length f'.unread)
    × (f'.position ≡ f.position + record_header_len + r.incl_len)

read_packet-StepFits :
    (ns : Bool) (size : Option ℕ) (count : ℕ) (f g : Stream) (vs : List ℕ)
    → length vs ≡ 4
    → length f.unread ≡ record_header_len + length g.unread
    → g.position ≡ f.position + record_header_len
    → StepFits f (read_packet ns size count f.position g vs)
unfolding read_packet
read_packet-StepFits ns size count f g (ts_sec ∷ ts_frac ∷ incl ∷ orig ∷ []) h k p =
    ground (arith, length-take incl g.unread, length-drop incl g.unread)
read_packet-StepFits ns size count f g vs h k p = ground arith

length-zero {ℓ} : {A : Type ℓ} (xs : List A) → length xs ≡ 0 → xs ≡ []
length-zero [] h = refl
length-zero (x ∷ xs) h = absurd (omega arith)

read_header_full :
    (header : GlobalHeader) (size : Option ℕ) (count before : ℕ) (raw : List ℕ) (f : Stream)
    → length raw ≡ record_header_len
    → read_header header size count before raw f
      ≡ read_packet header.nanosecond size count before f
          (fields header.byte_order record_header_format raw)
unfolding read_header
read_header_full header size count before raw f h =
    rw (h, unpack_total header.byte_order record_header_format raw h, read_header)

pub read_record-StepFits :
    (header : GlobalHeader) (size : Option ℕ) (count : ℕ) (f : Stream)
    → StepFits f (read_record header size count f)
unfolding read_record
read_record-StepFits header size count f = elim (Bool-cases (ltb (length f.unread) 16)) [
  | inl short ↦ unfold read_header in ground (arith, length-take 16 f.unread, length-zero f.unread)
  | inr full ↦
      let room : 16 ≤ length f.unread = ltb→ge _ _ full in
      let raw = take record_header_len f.unread in
      rw
        (read_header_full header size count f.position raw (advance 16 f)
          (omega (arith, length-take 16 f.unread)))
        (read_packet-StepFits header.nanosecond size count f (advance 16 f)
          (fields header.byte_order record_header_format raw)
          (length-fields header.byte_order record_header_format raw)
          (omega (arith, length-drop 16 f.unread)) (omega (arith, length-take 16 f.unread)))
]

-- The bytes that the records take in the file.
abbrev pub bytes_of : List PacketRecord → ℕ
bytes_of [] = 0
bytes_of (r ∷ rs) = record_header_len + r.incl_len + bytes_of rs

abbrev pub EndsWell : End → Type 0
EndsWell returned = Unit
EndsWell (broke e) = IsPcapError e
EndsWell out_of_fuel = ⊥

-- A record's data has the declared length, which is at most 4 MiB.
abbrev pub RecordFits : PacketRecord → Type 0
RecordFits r = (length r.payload ≡ r.incl_len) × (r.incl_len ≤ absolute_max_packet_len)

abbrev pub ReadingFits : ℕ → Reading → Type 0
ReadingFits size reading =
    EndsWell reading.ending × All RecordFits reading.records × (bytes_of reading.records ≤ size)

after_step-ReadingFits :
    (f : Stream) (step : Step) (next : PacketRecord → Stream → Reading)
    → StepFits f step
    → ((r : PacketRecord) (f' : Stream)
        → length f'.unread < length f.unread
        → ReadingFits (length f'.unread) (next r f'))
    → ReadingFits (length f.unread) (after_step step next)
after_step-ReadingFits f end_of_file next h k = (tt, tt, omega arith)
after_step-ReadingFits f (failed e) next h k = (h, tt, omega arith)
after_step-ReadingFits f (yielded r f') next h k =
    let (ends_well, fits, size) = k r f' (omega arith) in
    (ends_well, ((h.0, h.1), fits), omega arith)

read_from-ReadingFits :
    (fuel : ℕ) (header : GlobalHeader) (size limit : Option ℕ) (count : ℕ) (f : Stream)
    → length f.unread < fuel
    → ReadingFits (length f.unread) (read_from fuel header size limit count f)
unfolding read_from
read_from-ReadingFits zero header size limit count f h = absurd (omega arith)
read_from-ReadingFits (suc fuel) header size limit count f h =
    elim (Bool-cases (at_limit limit count)) [
      | inl stop ↦ rw (stop, read_from) (tt, tt, omega arith)
      | inr more ↦
          rw (more, read_from)
            (after_step-ReadingFits f (read_record header size count f)
              (λ r f'. read_from fuel header size limit (count + 1) f')
              (read_record-StepFits header size count f)
              (λ r f' less.
                read_from-ReadingFits fuel header size limit (count + 1) f' (omega arith)))
    ]

-- Whatever the file holds, and whatever limit is set, the loop of `read_pcap_records` ends, with a
-- normal return or a `PcapError`; every record has as many bytes as it declares, at most 4 MiB; and
-- the records with their headers take no more bytes than the file has.
pub read_pcap_records-ReadingFits :
    (f : Stream) (header : GlobalHeader) (size limit : Option ℕ) (has_tell : Bool)
    → ReadingFits (length f.unread) (read_pcap_records f header size limit has_tell)
unfolding read_pcap_records
read_pcap_records-ReadingFits f header size limit has_tell =
    read_from-ReadingFits (length f.unread + 1) header (known_size size has_tell) limit 0 f
      (omega arith)
