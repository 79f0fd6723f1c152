-- ===== src/Pcap/Import.antt =====
-- pcap/import_pipeline.py: an upload is written to a file of bounded size, read, dissected and stored;
-- and pcap/session_store.py, the tables of imported sessions.
use net_audit.Pcap.Ng.Blocks.{read_pcapng, Blocks, meta_of}
use net_audit.Pcap.Ng.{Scale, is_pcapng}
use net_audit.Pcap.Format.{
  Result, struct_error, pcap_error, GlobalHeader, raised, Stream, ok, at_start,
}
use net_audit.Common.Text.{Text, codes, decimal}
use net_audit.Packet.Dissect.{dissect_frame}
use net_audit.Pcap.Format.Reader.{
  End, broke, returned, read_pcap_records, out_of_fuel, Reading, read_global_header,
}
use net_audit.Pcap.Format.{Raised}
use net_audit.Pcap.Format.{PcapError}
use net_audit.Packet.Dissect.{Dissected}
use net_audit.Pcap.Format.{PacketRecord}
use net_audit.Common.{
  ltb, leb, ◌==◌, if◌then◌else◌, length, take, ℕ, ◌+◌, ◌*◌, Bool, true, false, ◌&&◌, none, some,
  List, [], ◌∷◌, ◌++◌,
}

-- An instant as the number of its nanoseconds.
abbrev pub timestamp : PacketRecord → ℕ
timestamp r =
    if r.nanosecond
    then r.ts_sec * 1000000000 + r.ts_frac
    else r.ts_sec * 1000000000 + r.ts_frac * 1000

pub record ImportedPacket : Type 0 where
  pub ts_epoch : ℕ
  pub fields : Dissected
  pub byte_count : ℕ

pub data Saved : Type 0 where
  saved : List ℕ → Saved
  too_large : Saved

-- The loop over the chunks, with what is in the file; at the cap it raises, and the file is removed.
unfoldable pub stream_from : ℕ → List ℕ → List (List ℕ) → Saved
stream_from max_bytes content [] = saved content
stream_from max_bytes content ([] ∷ chunks) = stream_from max_bytes content chunks
stream_from max_bytes content ((b ∷ bs) ∷ chunks) =
    elim (ltb max_bytes (length content + length (b ∷ bs))) [
      | true ↦ too_large
      | false ↦ stream_from max_bytes (content ++ (b ∷ bs)) chunks
    ]

unfoldable pub stream_to_disk : ℕ → List (List ℕ) → Saved
unfolding stream_from
stream_to_disk max_bytes chunks = stream_from max_bytes [] chunks

-- `PcapImportError`, by what it reports.
pub data ImportError : Type 0 where
  too_short no_valid_packets : ImportError
  bad_file : PcapError → ImportError

-- The result of a call, a `PcapImportError`, another exception, or a loop that does not end.
pub data Outcome (A : Type 0) : Type 0 where
  gives : A → Outcome A
  refused : ImportError → Outcome A
  escaped : Raised → Outcome A
  hangs : Outcome A

pub record Drained : Type 0 where
  pub packets : List ImportedPacket
  pub truncated : Bool
  pub parse_errors : ℕ

abbrev pub imported : PacketRecord → Dissected → ImportedPacket
imported r d = record { ts_epoch = timestamp r; fields = d; byte_count = r.orig_len }

-- How the iteration ends: a `PcapError` is counted, and anything else goes on.
abbrev pub at_end : List ImportedPacket → End → Outcome Drained
at_end packets returned = gives (record { packets = packets; truncated = false; parse_errors = 0 })
at_end packets (broke (pcap_error e)) =
    gives (record { packets = packets; truncated = true; parse_errors = 1 })
at_end packets (broke e) = escaped e
at_end packets out_of_fuel = hangs

-- The loop over the records, with the packets so far.
unfoldable pub drain_from : ℕ → ℕ → List ImportedPacket → List PacketRecord → End → Outcome Drained
unfolding dissect_frame
drain_from linktype max_packets packets [] ending = at_end packets ending
drain_from linktype max_packets packets (r ∷ rs) ending = elim (dissect_frame linktype r.payload) [
  | none ↦ escaped struct_error
  | some d ↦ elim (leb max_packets (length packets + 1)) [
    | true ↦
        gives
          (record { packets = packets ++ (imported r d ∷ []); truncated = true; parse_errors = 0 })
    | false ↦ drain_from linktype max_packets (packets ++ (imported r d ∷ [])) rs ending
  ]
]

unfoldable pub drain_records : ℕ → ℕ → List PacketRecord → End → Outcome Drained
unfolding drain_from
drain_records linktype max_packets rs ending = drain_from linktype max_packets [] rs ending

abbrev pub linktype_name : ℕ → Text
linktype_name n =
    if n == 0
    then codes "NULL"
    else if n == 1
    then codes "EN10MB"
    else if n == 101
    then codes "RAW"
    else if n == 228
    then codes "IPV4"
    else if n == 229
    then codes "IPV6"
    else codes "UNKNOWN(" ++ (decimal n ++ codes ")")

pub record ParsedFile : Type 0 where
  pub name : Text
  pub drained : Drained

-- The checks behind the loop.
abbrev pub at_cap : ℕ → Drained → Drained
at_cap max_packets d =
    if leb max_packets (length d.packets) then record d { truncated = true } else d

abbrev pub check_drained : ℕ → Text → Outcome Drained → Outcome ParsedFile
check_drained max_packets name (gives d) =
    if length d.packets == 0 && ltb 0 d.parse_errors
    then refused no_valid_packets
    else gives (record { name = name; drained = at_cap max_packets d })
check_drained max_packets name (refused e) = refused e
check_drained max_packets name (escaped e) = escaped e
check_drained max_packets name hangs = hangs

-- `except pcapfmt.PcapError as exc: raise PcapImportError(str(exc))`
abbrev pub or_refused : Raised → Outcome ParsedFile
or_refused (pcap_error e) = refused (bad_file e)
or_refused e = escaped e

abbrev pub parse_blocks : ℕ → Result Blocks → Outcome ParsedFile
parse_blocks max_packets (raised e) = or_refused e
parse_blocks max_packets (ok b) =
    check_drained max_packets (linktype_name (meta_of b.first).linktype)
      (drain_records (meta_of b.first).linktype max_packets b.records b.ending)

abbrev pub parse_classic : ℕ → ℕ → Result GlobalHeader × Stream → Outcome ParsedFile
parse_classic max_packets size (raised e, f) = or_refused e
parse_classic max_packets size (ok header, f) =
    let reading : Reading = read_pcap_records f header (some size) (some max_packets) true in
    check_drained max_packets (linktype_name header.network)
      (drain_records header.network max_packets reading.records reading.ending)

module _ (scale : Scale) where
  abbrev pub parse_as : ℕ → List ℕ → Result Bool → Outcome ParsedFile
  parse_as max_packets bytes (raised e) = escaped e
  parse_as max_packets bytes (ok true) =
      parse_blocks max_packets
        (read_pcapng scale (at_start bytes) (some (length bytes)) (some max_packets))
  parse_as max_packets bytes (ok false) =
      parse_classic max_packets (length bytes) (read_global_header (at_start bytes))

  unfoldable pub parse_pcap_file : ℕ → List ℕ → Outcome ParsedFile
  unfolding drain_records read_pcapng read_pcap_records read_global_header is_pcapng
  parse_pcap_file max_packets bytes =
      if ltb (length (take 4 bytes)) 4
      then refused too_short
      else parse_as max_packets bytes (is_pcapng (take 4 bytes))
