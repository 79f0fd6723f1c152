-- ===== src/Pcap/Format.antt =====
-- pcap/format.py: constants, errors and records, and the writer of classic libpcap files.
-- A file is the list of its bytes. A read of n bytes returns fewer at the end of the file only.
pub mod Reader
pub mod Totality
pub mod Records
pub mod RoundTrip
pub mod Limit
use mathlib.Core.List.{flatten}
use net_audit.Common.{
  ℕ, ◌+◌, ◌-◌, ◌*◌, ◌%◌, ◌^◌, Bool, not, Option, none, some, List, [], ◌∷◌, ◌++◌, length, take,
  drop, ltb, ◌==◌, if◌then◌else◌,
}
use net_audit.Common.Int.{ℤ, pos, sub_ℕ}
use net_audit.Struct.{ByteOrder, little, pack}

abbrev pub magic_usec : ℕ
magic_usec = 0xA1B2C3D4

abbrev pub magic_nsec : ℕ
magic_nsec = 0xA1B23C4D

abbrev pub global_header_len : ℕ
global_header_len = 24

abbrev pub record_header_len : ℕ
record_header_len = 16

abbrev pub absolute_max_packet_len : ℕ
absolute_max_packet_len = 4 * 1024 * 1024

abbrev pub absolute_max_snaplen : ℕ
absolute_max_snaplen = 16 * 1024 * 1024

abbrev pub absolute_max_block_len : ℕ
absolute_max_block_len = 16 * 1024 * 1024

-- `PcapError`, a constructor for each message, with the numbers that the message shows.
pub data PcapError : Type 0 where
  empty_file bad_magic : PcapError
  truncated_global_header implausible_snaplen : ℕ → PcapError
  truncated_record_header : ℕ → ℕ → PcapError
  oversized_record : ℕ → ℕ → PcapError
  record_past_end truncated_packet_data : ℕ → ℕ → ℕ → PcapError
  bad_section_magic truncated_block_type truncated_block_length truncated_block_body : PcapError
  implausible_block_length unaligned_block_length oversized_block : ℕ → PcapError
  block_past_end : ℕ → ℕ → PcapError
  block_length_mismatch truncated_section_header bad_byte_order_magic : PcapError
  truncated_interface truncated_packet_block packet_past_block : PcapError
  implausible_interface_snaplen oversized_packet : ℕ → PcapError

-- What Python code here can raise: its own errors, `struct.error`, or `ValueError`.
pub data Raised : Type 0 where
  pcap_error : PcapError → Raised
  struct_error value_error : Raised

pub data Result {ℓ} (A : Type ℓ) : Type ℓ where
  ok : A → Result A
  raised : Raised → Result A

pub record GlobalHeader : Type 0 where
  pub magic : ℕ
  pub version_major : ℕ
  pub version_minor : ℕ
  pub thiszone : ℤ
  pub sigfigs : ℕ
  pub snaplen : ℕ
  pub network : ℕ
  pub byte_order : ByteOrder
  pub nanosecond : Bool

pub record PacketRecord : Type 0 where
  pub ts_sec : ℕ
  pub ts_frac : ℕ
  pub incl_len : ℕ
  pub orig_len : ℕ
  pub payload : List ℕ
  pub nanosecond : Bool

-- A file with its position: the bytes before it are counted, the others are still to be read.
pub record Stream : Type 0 where
  pub position : ℕ
  pub unread : List ℕ

abbrev pub at_start : List ℕ → Stream
at_start bytes = record { position = 0; unread = bytes }

-- The file after a read of `n` bytes (`take n s.unread` is what it returns).
abbrev pub advance : ℕ → Stream → Stream
advance n s = record { position = s.position + length (take n s.unread); unread = drop n s.unread }

-- "IHHiIII" and "IIII"
abbrev pub global_header_format : List ℕ
global_header_format = 4 ∷ 2 ∷ 2 ∷ 4 ∷ 4 ∷ 4 ∷ 4 ∷ []

abbrev pub record_header_format : List ℕ
record_header_format = 4 ∷ 4 ∷ 4 ∷ 4 ∷ []

-- A packed value, or the `struct.error` for one that does not fit.
abbrev pub packed : Option (List ℕ) → Result (List ℕ)
packed none = raised struct_error
packed (some bytes) = ok bytes

unfoldable pub write_global_header : ℕ → ℕ → Result (List ℕ)
write_global_header snaplen linktype =
    packed (pack little global_header_format (magic_usec ∷ 2 ∷ 4 ∷ 0 ∷ 0 ∷ snaplen ∷ linktype ∷ []))

abbrev pub after : List ℕ → Result (List ℕ) → Result (List ℕ)
after tail (ok front) = ok (front ++ tail)
after tail (raised e) = raised e

unfoldable pub write_packet_record : ℕ → ℕ → ℕ → ℕ → List ℕ → Result (List ℕ)
write_packet_record ts_sec ts_usec incl_len orig_len payload =
    if not (length payload == incl_len)
    then raised value_error
    else after payload (
        packed (
          pack little record_header_format
            (ts_sec % 2 ^ 32 ∷ ts_usec % 2 ^ 32 ∷ incl_len ∷ orig_len ∷ [])))

-- What `iter_write_pcap` is given for each packet.
pub record Capture : Type 0 where
  pub ts_sec : ℕ
  pub ts_usec : ℕ
  pub orig_len : ℕ
  pub payload : List ℕ

-- The chunks that a generator yields, and what it raises behind them, if anything.
pub record Written : Type 0 where
  pub chunks : List (List ℕ)
  pub failure : Option Raised

abbrev pub yielding : Result (List ℕ) → Written → Written
yielding (raised e) later = record { chunks = []; failure = some e }
yielding (ok chunk) later = record { chunks = chunk ∷ later.chunks; failure = later.failure }

unfoldable pub write_records : List Capture → Written
write_records [] = record { chunks = []; failure = none }
write_records (c ∷ cs) =
    yielding (write_packet_record c.ts_sec c.ts_usec (length c.payload) c.orig_len c.payload)
      (write_records cs)

unfoldable pub iter_write_pcap : List Capture → ℕ → ℕ → Written
iter_write_pcap records snaplen linktype =
    yielding (write_global_header snaplen linktype) (write_records records)
