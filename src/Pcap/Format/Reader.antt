-- ===== src/Pcap/Format/Reader.antt =====
-- pcap/format.py: the reader of classic libpcap files. A generator's records and its end (a normal
-- return, or what it raises) are a `Reading`. The loop takes fuel, one unit for each record.
use net_audit.Common.{
  ℕ, zero, suc, ◌+◌, ◌-◌, ◌^◌, Bool, true, false, not, ◌||◌, Option, none, some, List, [], ◌∷◌,
  length, take, ltb, leb, ◌==◌, if◌then◌else◌,
}
use net_audit.Common.Int.{ℤ, pos, sub_ℕ}
use net_audit.Struct.{ByteOrder, little, big, unpack}
use net_audit.Pcap.Format.{
  magic_usec, magic_nsec, global_header_len, record_header_len, absolute_max_packet_len,
  absolute_max_snaplen, PcapError, Raised, pcap_error, struct_error, value_error, Result, ok,
  raised, GlobalHeader, PacketRecord, Stream, advance, global_header_format, record_header_format,
}

-- struct.unpack(order + "I", raw)[0]
unfoldable pub unpack_u32 : ByteOrder → List ℕ → Result ℕ
unpack_u32 o raw = elim (unpack o (4 ∷ []) raw) [
  | none ↦ raised struct_error
  | some [] ↦ raised struct_error
  | some (v ∷ vs) ↦ ok v
]

abbrev pub order_of_magic : ℕ → ℕ → Option (ByteOrder × Bool)
order_of_magic le_val be_val =
    if le_val == magic_usec
    then some (little, false)
    else if be_val == magic_usec
    then some (big, false)
    else if le_val == magic_nsec
    then some (little, true)
    else if be_val == magic_nsec
    then some (big, true)
    else none

unfoldable pub magic_lookup : List ℕ → Result (Option (ByteOrder × Bool))
magic_lookup raw4 = elim (unpack_u32 little raw4) [
  | raised e ↦ raised e
  | ok le_val ↦ elim (unpack_u32 big raw4) [
    | raised e ↦ raised e
    | ok be_val ↦ ok (order_of_magic le_val be_val)
  ]
]

-- The value of an "i" field, from its bit pattern.
abbrev pub signed32 : ℕ → ℤ
signed32 n = if ltb n (2 ^ 31) then pos n else sub_ℕ n (2 ^ 32)

abbrev pub checked_header : ByteOrder → Bool → ℕ → ℕ → ℕ → ℕ → ℕ → ℕ → ℕ → Result GlobalHeader
checked_header o ns magic major minor zone sig snaplen network =
    if snaplen == 0 || ltb absolute_max_snaplen snaplen
    then raised (pcap_error (PcapError.implausible_snaplen snaplen))
    else ok (record {
      magic = magic;
      version_major = major;
      version_minor = minor;
      thiszone = signed32 zone;
      sigfigs = sig;
      snaplen = snaplen;
      network = network;
      byte_order = o;
      nanosecond = ns;
    })

-- The assignment to seven names raises `ValueError` at another number of values.
abbrev pub header_of : ByteOrder → Bool → List ℕ → Result GlobalHeader
header_of o ns (magic ∷ major ∷ minor ∷ zone ∷ sig ∷ snaplen ∷ network ∷ []) =
    checked_header o ns magic major minor zone sig snaplen network
header_of o ns _ = raised value_error

-- What follows the check of the magic number.
unfoldable pub with_magic : List ℕ → Option (ByteOrder × Bool) → Result GlobalHeader
with_magic raw none = raised (pcap_error PcapError.bad_magic)
with_magic raw (some (o, ns)) = elim (unpack o global_header_format raw) [
  | none ↦ raised struct_error
  | some vs ↦ header_of o ns vs
]

unfoldable pub parse_global_header : List ℕ → Result GlobalHeader
parse_global_header raw =
    if length raw == 0
    then raised (pcap_error PcapError.empty_file)
    else if ltb (length raw) global_header_len
    then raised (pcap_error (PcapError.truncated_global_header (length raw)))
    else elim (magic_lookup (take 4 raw)) [ raised e ↦ raised e | ok found ↦ with_magic raw found ]

-- `read_global_header`, with the file behind what it has read.
unfoldable pub read_global_header : Stream → Result GlobalHeader × Stream
read_global_header f =
    (parse_global_header (take global_header_len f.unread), advance global_header_len f)

pub data Step : Type 0 where
  end_of_file : Step
  failed : Raised → Step
  yielded : PacketRecord → Stream → Step

-- Does a declared length pass the end of a file of known size? The subtraction stops at 0, as `max(remaining, 0)` does.
abbrev pub bytes_left : ℕ → ℕ → ℕ
bytes_left size before = size - (before + record_header_len)

abbrev pub past_end : Option ℕ → ℕ → ℕ → Bool
past_end none before n = false
past_end (some size) before n = ltb (bytes_left size before) n

abbrev pub left_of : Option ℕ → ℕ → ℕ
left_of none before = 0
left_of (some size) before = bytes_left size before

-- The part of the loop's body behind the record header. `size` is the size of the file, where it is
-- given and the file has a position; `before` is the position of the record header.
unfoldable pub read_packet : Bool → Option ℕ → ℕ → ℕ → Stream → List ℕ → Step
read_packet ns size count before f (ts_sec ∷ ts_frac ∷ incl_len ∷ orig_len ∷ []) =
    if ltb absolute_max_packet_len incl_len
    then failed (pcap_error (PcapError.oversized_record count incl_len))
    else if past_end size before incl_len
    then failed (pcap_error (PcapError.record_past_end count incl_len (left_of size before)))
    else if not (length (take incl_len f.unread) == incl_len)
    then failed (
        pcap_error
          (PcapError.truncated_packet_data count (length (take incl_len f.unread)) incl_len))
    else yielded
        (record {
          ts_sec = ts_sec;
          ts_frac = ts_frac;
          incl_len = incl_len;
          orig_len = orig_len;
          payload = take incl_len f.unread;
          nanosecond = ns;
        })
        (advance incl_len f)
read_packet ns size count before f _ = failed value_error

-- What the loop does with the bytes read for the record header.
unfoldable pub read_header : GlobalHeader → Option ℕ → ℕ → ℕ → List ℕ → Stream → Step
read_header header size count before raw f =
    if length raw == 0
    then end_of_file
    else if ltb (length raw) record_header_len
    then failed (pcap_error (PcapError.truncated_record_header count (length raw)))
    else elim (unpack header.byte_order record_header_format raw) [
      | none ↦ failed struct_error
      | some vs ↦ read_packet header.nanosecond size count before f vs
    ]

-- One round of the loop.
unfoldable pub read_record : GlobalHeader → Option ℕ → ℕ → Stream → Step
read_record header size count f =
    read_header header size count f.position (take record_header_len f.unread)
      (advance record_header_len f)

pub data End : Type 0 where
  returned : End
  broke : Raised → End
  out_of_fuel : End

pub record Reading : Type 0 where
  pub records : List PacketRecord
  pub ending : End

abbrev pub ends : End → Reading
ends e = record { records = []; ending = e }

abbrev pub then_read : PacketRecord → Reading → Reading
then_read r later = record { records = r ∷ later.records; ending = later.ending }

-- `max_packets is not None and count >= max_packets`
abbrev pub at_limit : Option ℕ → ℕ → Bool
at_limit none count = false
at_limit (some n) count = leb n count

abbrev pub after_step : Step → (PacketRecord → Stream → Reading) → Reading
after_step end_of_file next = ends returned
after_step (failed e) next = ends (broke e)
after_step (yielded r f) next = then_read r (next r f)

unfoldable pub read_from : ℕ → GlobalHeader → Option ℕ → Option ℕ → ℕ → Stream → Reading
read_from zero header size limit count f = ends out_of_fuel
read_from (suc fuel) header size limit count f = elim (at_limit limit count) [
  | true ↦ ends returned
  | false ↦
      after_step (read_record header size count f)
        (λ r f'. read_from fuel header size limit (count + 1) f')
]

-- The check against the file size is skipped for a file without `tell`.
abbrev pub known_size : Option ℕ → Bool → Option ℕ
known_size size true = size
known_size size false = none

unfoldable pub read_pcap_records : Stream → GlobalHeader → Option ℕ → Option ℕ → Bool → Reading
read_pcap_records f header size limit has_tell =
    read_from (length f.unread + 1) header (known_size size has_tell) limit 0 f
