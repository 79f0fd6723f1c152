-- ===== src/Pcap/Ng/Blocks.antt =====
-- pcap/format.py: what the pcapng reader does with each block, and its loop over the blocks.
use net_audit.Common.{
  ℕ, zero, suc, ◌+◌, ◌*◌, ◌/◌, ◌^◌, Bool, true, false, Option, none, some, List, [], ◌∷◌, ◌++◌,
  length, take, drop, slice, get_elem?, ltb, ◌==◌, if◌then◌else◌,
}
use net_audit.Struct.{little, big, unpack}
use net_audit.Pcap.Format.{
  absolute_max_packet_len, absolute_max_snaplen, PcapError, pcap_error, struct_error, value_error,
  Result, ok, raised, PacketRecord, Stream, advance,
}
use net_audit.Pcap.Format.Reader.{unpack_u32, End, returned, broke, out_of_fuel, at_limit}
use net_audit.Pcap.Ng.{
  bt_section_header, bt_interface_description, bt_enhanced_packet, pcapng_bom, pcapng_bom_swapped,
  Resolution, Interface, Scale, Meta, Section, is_pcapng, padded, parse_if_tsresol, Framed, no_more,
  bad, block, frame_block,
}

-- A handled block: the section behind it, and the packet that it yields, if any.
pub record Handled : Type 0 where
  pub section : Section
  pub packet : Option PacketRecord

abbrev pub order_of_bom : Section → Result ℕ → Result Handled
order_of_bom s (raised e) = raised e
order_of_bom s (ok bom) =
    if bom == pcapng_bom
    then ok (record { section = record s { byte_order = little; interfaces = [] }; packet = none })
    else if bom == pcapng_bom_swapped
    then ok (record { section = record s { byte_order = big; interfaces = [] }; packet = none })
    else raised (pcap_error PcapError.bad_byte_order_magic)

unfoldable pub section_header : Section → List ℕ → Result Handled
section_header s body =
    if ltb (length body) 16
    then raised (pcap_error PcapError.truncated_section_header)
    else order_of_bom s (unpack_u32 little (take 4 body))

-- `snaplen or 262144`
abbrev pub or_default : ℕ → ℕ
or_default snaplen = if snaplen == 0 then 262144 else snaplen

-- Only the first interface of the file is kept in `meta_holder`.
abbrev pub first_meta : Option Meta → ℕ → ℕ → Option Meta
first_meta (some m) linktype snaplen = some m
first_meta none linktype snaplen =
    some (record { linktype = linktype; snaplen = or_default snaplen })

abbrev pub add_interface : Section → ℕ → ℕ → Result Resolution → Result Handled
add_interface s linktype snaplen (raised e) = raised e
add_interface s linktype snaplen (ok resolution) = ok (record {
  section = record s {
    interfaces =
        s.interfaces
        ++ (record { linktype = linktype; snaplen = or_default snaplen; resolution = resolution }
            ∷ []);
    first = first_meta s.first linktype snaplen;
  };
  packet = none;
})

abbrev pub interface_fields : Section → List ℕ → List ℕ → Result Handled
interface_fields s options (linktype ∷ reserved ∷ snaplen ∷ []) =
    if ltb absolute_max_snaplen snaplen
    then raised (pcap_error (PcapError.implausible_interface_snaplen snaplen))
    else add_interface s linktype snaplen (parse_if_tsresol options s.byte_order)
interface_fields s options _ = raised value_error

unfoldable pub interface_description : Section → List ℕ → Result Handled
interface_description s body =
    if ltb (length body) 8
    then raised (pcap_error PcapError.truncated_interface)
    else elim (unpack s.byte_order (2 ∷ 2 ∷ 4 ∷ []) (take 8 body)) [
      | none ↦ raised struct_error
      | some vs ↦ interface_fields s (drop 8 body) vs
    ]

-- `interfaces[if_id]`, or the literal default of 1000 ns for an id out of range.
abbrev pub resolution_at : Option Interface → Resolution
resolution_at none = Resolution.microseconds
resolution_at (some i) = i.resolution

module _ (scale : Scale) where
  abbrev pub packet_of : Resolution → ℕ → ℕ → ℕ → List ℕ → PacketRecord
  packet_of r units cap_len orig_len payload = record {
    ts_sec = scale.seconds r units;
    ts_frac =
        if scale.below_microsecond r
        then scale.nanoseconds r units
        else scale.nanoseconds r units / 1000;
    incl_len = cap_len;
    orig_len = orig_len;
    payload = payload;
    nanosecond = scale.below_microsecond r;
  }

  abbrev pub packet_fields : Section → List ℕ → List ℕ → Result Handled
  packet_fields s body (if_id ∷ ts_high ∷ ts_low ∷ cap_len ∷ orig_len ∷ []) =
      if ltb absolute_max_packet_len cap_len
      then raised (pcap_error (PcapError.oversized_packet cap_len))
      else if ltb (length body) (20 + padded cap_len)
      then raised (pcap_error PcapError.packet_past_block)
      else ok (record {
        section = s;
        packet = some (
            packet_of (resolution_at (get_elem? s.interfaces if_id)) (ts_high * 2 ^ 32 + ts_low)
              cap_len orig_len (slice 20 (20 + cap_len) body));
      })
  packet_fields s body _ = raised value_error

  unfoldable pub enhanced_packet : Section → List ℕ → Result Handled
  enhanced_packet s body =
      if ltb (length body) 20
      then raised (pcap_error PcapError.truncated_packet_block)
      else elim (unpack s.byte_order (4 ∷ 4 ∷ 4 ∷ 4 ∷ 4 ∷ []) (take 20 body)) [
        | none ↦ raised struct_error
        | some vs ↦ packet_fields s body vs
      ]

  unfoldable pub handle_block : Section → ℕ → List ℕ → Result Handled
  handle_block s btype body =
      if btype == bt_section_header
      then section_header s body
      else if btype == bt_interface_description
      then interface_description s body
      else if btype == bt_enhanced_packet
      then enhanced_packet s body
      else ok (record { section = s; packet = none })

-- What the generator yields, how it ends, and `meta_holder` when it yields first, or else at its end.
pub record Blocks : Type 0 where
  pub records : List PacketRecord
  pub ending : End
  pub first : Option Meta

abbrev pub stops : Section → End → Blocks
stops s e = record { records = []; ending = e; first = s.first }

abbrev pub yields : Section → Option PacketRecord → Blocks → Blocks
yields s none later = later
yields s (some r) later = record {
  records = r ∷ later.records;
  ending = later.ending;
  first = s.first;
}

abbrev pub next_count : Option PacketRecord → ℕ → ℕ
next_count none count = count
next_count (some r) count = count + 1

abbrev pub after_handled : Section → Result Handled → (Handled → Blocks) → Blocks
after_handled s (raised e) next = stops s (broke e)
after_handled s (ok h) next = yields h.section h.packet (next h)

abbrev pub new_section : Section
new_section = record { byte_order = little; interfaces = []; first = none }

-- `next(gen)` raises what the generator raises before it yields anything.
abbrev pub first_pull : Blocks → Result Blocks
first_pull b = elim b.records [
  | [] ↦ elim b.ending [ returned ↦ ok b | broke e ↦ raised e | out_of_fuel ↦ ok b ]
  | r ∷ rs ↦ ok b
]

abbrev pub when_pcapng : Result Bool → Result Blocks → Result Blocks
when_pcapng (raised e) later = raised e
when_pcapng (ok true) later = later
when_pcapng (ok false) later = raised (pcap_error PcapError.bad_section_magic)

module _ (scale : Scale) where
  abbrev pub after_frame : Section → Framed → (Handled → ℕ → Stream → Blocks) → Blocks
  after_frame s no_more next = stops s returned
  after_frame s (bad e) next = stops s (broke e)
  after_frame s (block btype body total f) next =
      after_handled s (handle_block scale s btype body) (λ h. next h total f)

  -- `pending` is the block type that has been read already, at the start of the file only.
  unfoldable pub blocks_from : ℕ → Option ℕ → Option ℕ → Section → ℕ → ℕ → List ℕ → Stream → Blocks
  blocks_from zero size limit s consumed count btype_raw f = stops s out_of_fuel
  blocks_from (suc fuel) size limit s consumed count btype_raw f = elim (at_limit limit count) [
    | true ↦ stops s returned
    | false ↦ after_frame s (frame_block s.byte_order size consumed btype_raw f) (λ h total f'.
        blocks_from fuel size limit h.section (consumed + total) (next_count h.packet count)
          (take 4 f'.unread) (advance 4 f'))
  ]

  -- The whole generator behind the first four bytes.
  unfoldable pub all_blocks : Option ℕ → Option ℕ → List ℕ → Stream → Blocks
  all_blocks size limit first4 f =
      blocks_from (length f.unread + 5) size limit new_section 0 0 first4 f

  unfoldable pub read_pcapng : Stream → Option ℕ → Option ℕ → Result Blocks
  read_pcapng f size limit =
      let first4 = take 4 f.unread in
      when_pcapng (is_pcapng first4) (first_pull (all_blocks size limit first4 (advance 4 f)))

-- `meta_holder.get("linktype", LINKTYPE_ETHERNET)` and `meta_holder.get("snaplen", 262144)`
unfoldable pub meta_of : Option Meta → Meta
meta_of none = record { linktype = 1; snaplen = 262144 }
meta_of (some m) = m
