-- ===== src/Pcap/Ng.antt =====
-- pcap/format.py: the pcapng reader. The block loop keeps the byte order, the bytes consumed, the
-- interfaces of the section and the first interface's link type and snapshot length. The conversion of
-- a timestamp goes through floats, so it is a parameter, `Scale`.
pub mod Blocks
mod Options
pub mod Totality
pub mod Loop
pub mod ByteOrderBug
pub mod Skips
use net_audit.Common.{
  ℕ, zero, suc, ◌+◌, ◌-◌, ◌*◌, ◌/◌, ◌%◌, ◌^◌, Bool, true, false, not, ◌&&◌, ◌||◌, Option, none,
  some, List, [], ◌∷◌, ◌++◌, length, take, drop, get_elem?, ltb, leb, ◌==◌, if◌then◌else◌,
}
use net_audit.Struct.{ByteOrder, little, big, unpack}
use net_audit.Pcap.Format.{
  absolute_max_packet_len, absolute_max_snaplen, absolute_max_block_len, PcapError, Raised,
  pcap_error, struct_error, value_error, Result, ok, raised, PacketRecord, Stream, advance,
}
use net_audit.Pcap.Format.Reader.{
  unpack_u32, End, returned, broke, out_of_fuel, at_limit, bytes_left,
}

abbrev pub bt_section_header : ℕ
bt_section_header = 0x0A0D0D0A

abbrev pub bt_interface_description : ℕ
bt_interface_description = 1

abbrev pub bt_enhanced_packet : ℕ
bt_enhanced_packet = 6

abbrev pub pcapng_bom : ℕ
pcapng_bom = 0x1A2B3C4D

abbrev pub pcapng_bom_swapped : ℕ
pcapng_bom_swapped = 0x4D3C2B1A

abbrev pub block_header_len : ℕ
block_header_len = 12

-- The unit of an interface's timestamps: the literal default, 10^-n seconds, or 2^-n seconds.
pub data Resolution : Type 0 where
  microseconds : Resolution
  decimal binary : ℕ → Resolution

pub record Interface : Type 0 where
  pub linktype : ℕ
  pub snaplen : ℕ
  pub resolution : Resolution

-- Float arithmetic: seconds and nanoseconds of a count of units, and whether a unit is below 1000 ns.
pub record Scale : Type 0 where
  pub seconds : Resolution → ℕ → ℕ
  pub nanoseconds : Resolution → ℕ → ℕ
  pub below_microsecond : Resolution → Bool

-- `meta_holder`: the link type and the snapshot length of the first interface.
pub record Meta : Type 0 where
  pub linktype : ℕ
  pub snaplen : ℕ

pub record Section : Type 0 where
  pub byte_order : ByteOrder
  pub interfaces : List Interface
  pub first : Option Meta

unfoldable pub is_pcapng : List ℕ → Result Bool
is_pcapng raw4 = if ltb (length raw4) 4 then ok false else elim (unpack_u32 little raw4) [
  | raised e ↦ raised e
  | ok le_val ↦ elim (unpack_u32 big raw4) [
    | raised e ↦ raised e
    | ok be_val ↦ ok (le_val == bt_section_header || be_val == bt_section_header)
  ]
]

-- (n + 3) & ~3
abbrev pub padded : ℕ → ℕ
padded n = (n + 3) / 4 * 4

abbrev pub resolution_of : ℕ → Resolution
resolution_of b = if leb 128 b then Resolution.binary (b % 128) else Resolution.decimal b

abbrev pub first_byte : List ℕ → Resolution → Resolution
first_byte [] found = found
first_byte (b ∷ bs) found = resolution_of b

-- One option: its code and length are read, `rest` is behind them. `none` ends the loop.
abbrev pub option_step : ℕ → ℕ → List ℕ → Resolution → Option (List ℕ × Resolution)
option_step code len rest found =
    if code == 0 && len == 0
    then none
    else if ltb (length rest) (padded len)
    then none
    else some (
      drop (padded len) rest,
      if code == 9 && leb 1 len then first_byte (take len rest) found else found,
    )

abbrev pub option_header :
    ByteOrder → List ℕ → List ℕ → Resolution → Result (Option (List ℕ × Resolution))
option_header o (code ∷ len ∷ []) rest found = ok (option_step code len rest found)
option_header o _ rest found = raised value_error

abbrev pub after_option :
    Resolution
    → Result (Option (List ℕ × Resolution))
    → (List ℕ → Resolution → Result Resolution)
    → Result Resolution
after_option found (raised e) next = raised e
after_option found (ok none) next = ok found
after_option found (ok (some (rest, found'))) next = next rest found'

abbrev pub read_option :
    ByteOrder → List ℕ → Resolution → Option (List ℕ) → Result (Option (List ℕ × Resolution))
read_option o options found none = raised struct_error
read_option o options found (some vs) = option_header o vs (drop 4 options) found

-- The loop of `_parse_if_tsresol`, on what is left of the options, with fuel.
unfoldable pub parse_options : ℕ → ByteOrder → List ℕ → Resolution → Result Resolution
parse_options zero o options found = ok found
parse_options (suc fuel) o options found = elim (ltb (length options) 4) [
  | true ↦ ok found
  | false ↦
      after_option found (read_option o options found (unpack o (2 ∷ 2 ∷ []) (take 4 options)))
        (λ rest found'. parse_options fuel o rest found')
]

unfoldable pub parse_if_tsresol : List ℕ → ByteOrder → Result Resolution
parse_if_tsresol options o = parse_options (length options) o options (Resolution.decimal 6)

-- A block read whole: its type, its body and its total length.
pub data Framed : Type 0 where
  no_more : Framed
  bad : Raised → Framed
  block : ℕ → List ℕ → ℕ → Stream → Framed

abbrev pub block_past_end : Option ℕ → ℕ → ℕ → Bool
block_past_end none consumed total = false
block_past_end (some size) consumed total = ltb (size - (consumed + 8)) (total - 8)

abbrev pub left_after : Option ℕ → ℕ → ℕ
left_after none consumed = 0
left_after (some size) consumed = size - (consumed + 8)

abbrev pub check_trailer : ℕ → List ℕ → ℕ → Stream → Result ℕ → Framed
check_trailer btype body total f (raised e) = bad e
check_trailer btype body total f (ok trailer) =
    if trailer == total
    then block btype body total f
    else bad (pcap_error PcapError.block_length_mismatch)

-- From the declared length on: `f` is the file behind the length field.
unfoldable pub read_body : ByteOrder → Option ℕ → ℕ → ℕ → ℕ → Stream → Framed
read_body o size consumed btype total f =
    if ltb total block_header_len
    then bad (pcap_error (PcapError.implausible_block_length total))
    else if not (total % 4 == 0)
    then bad (pcap_error (PcapError.unaligned_block_length total))
    else if ltb absolute_max_block_len total
    then bad (pcap_error (PcapError.oversized_block total))
    else if block_past_end size consumed total
    then bad (pcap_error (PcapError.block_past_end total (left_after size consumed)))
    else let got = take (total - block_header_len + 4) f.unread in
      if not (length got == total - block_header_len + 4)
      then bad (pcap_error PcapError.truncated_block_body)
      else check_trailer btype (take (total - block_header_len) got) total
          (advance (total - block_header_len + 4) f)
          (unpack_u32 o (drop (total - block_header_len) got))

-- The two words in front of a block, read with the byte order of the section so far.
abbrev pub read_words : ByteOrder → Option ℕ → ℕ → Stream → Result ℕ → Result ℕ → Framed
read_words o size consumed f (raised e) total = bad e
read_words o size consumed f (ok btype) (raised e) = bad e
read_words o size consumed f (ok btype) (ok total) = read_body o size consumed btype total f

unfoldable pub frame_block : ByteOrder → Option ℕ → ℕ → List ℕ → Stream → Framed
frame_block o size consumed btype_raw f =
    if length btype_raw == 0
    then no_more
    else if ltb (length btype_raw) 4
    then bad (pcap_error PcapError.truncated_block_type)
    else let len_raw = take 4 f.unread in
      if ltb (length len_raw) 4
      then bad (pcap_error PcapError.truncated_block_length)
      else read_words o size consumed (advance 4 f) (unpack_u32 o btype_raw) (unpack_u32 o len_raw)
