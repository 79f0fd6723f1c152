-- ===== src/Pcap/Contained.antt =====
-- What an import may do, whatever is uploaded.
use net_audit.Pcap.Ng.Blocks.{Blocks, meta_of}
use net_audit.Packet.Dissect.{dissect_frame}
use net_audit.Pcap.Ng.{Scale}
use net_audit.Pcap.Format.{
  Result, PacketRecord, GlobalHeader, pcap_error, Stream, ok, struct_error, at_start, value_error,
  raised,
}
use net_audit.Pcap.Format.{Raised}
use net_audit.Common.Text.{Text}
use net_audit.Pcap.Format.Reader.{
  End, broke, returned, read_global_header, out_of_fuel, read_pcap_records,
}
use mathlib.Core.Path.{subst}
use net_audit.Pcap.Format.Totality.{
  EndsWell, IsPcapError, RaisesOnlyPcap, read_global_header-raises, read_pcap_records-ReadingFits,
}
use net_audit.Pcap.Ng.Loop.{PulledFits, is_pcapng_lem, read_pcapng-PulledFits}
use net_audit.Packet.Frames.{dissect_frame-total, IsGiven}
use net_audit.Packet.Totality.{Gives}
use net_audit.Pcap.Import.{
  ImportedPacket, Outcome, gives, refused, escaped, hangs, Drained, ParsedFile, parse_pcap_file,
  drain_from, drain_records, at_end, check_drained, or_refused, parse_as, parse_blocks,
  parse_classic, linktype_name, imported, at_cap, too_short,
}
use net_audit.Common.{
  ltb, leb, ◌==◌, if◌then◌else◌, Bool-cases, some-cases, length, take, length-append, length-take,
  ℕ, ◌+◌, ◌≤◌, ◌<◌, ◌≡◌, refl, sym, inl, inr, Bool, true, false, ◌&&◌, ◌||◌, some, List, [], ◌∷◌,
  ◌++◌, arith,
}

-- At most so many packets, and marked as truncated after an error or at the cap.
abbrev pub IsHonest : ℕ → Drained → Type 0
IsHonest max_packets d =
    (length d.packets ≤ max_packets) × ((d.truncated || d.parse_errors == 0) ≡ true)

abbrev DrainedFits : ℕ → Outcome Drained → Type 0
DrainedFits max_packets (gives d) = IsHonest max_packets d
DrainedFits max_packets (refused e) = ⊥
DrainedFits max_packets (escaped e) = ⊥
DrainedFits max_packets hangs = ⊥

at_end-DrainedFits :
    (max_packets : ℕ) (packets : List ImportedPacket) (ending : End)
    → length packets ≤ max_packets
    → EndsWell ending
    → DrainedFits max_packets (at_end packets ending)
at_end-DrainedFits max_packets packets returned h k = (h, refl)
at_end-DrainedFits max_packets packets (broke (pcap_error e)) h k = (h, refl)
at_end-DrainedFits max_packets packets (broke struct_error) h k = absurd k
at_end-DrainedFits max_packets packets (broke value_error) h k = absurd k
at_end-DrainedFits max_packets packets out_of_fuel h k = absurd k

drain_from-DrainedFits :
    (linktype max_packets : ℕ) (packets : List ImportedPacket) (rs : List PacketRecord)
    (ending : End)
    → length packets < max_packets
    → EndsWell ending
    → DrainedFits max_packets (drain_from linktype max_packets packets rs ending)
unfolding drain_from
drain_from-DrainedFits linktype max_packets packets [] ending h k =
    at_end-DrainedFits max_packets packets ending (omega arith) k
drain_from-DrainedFits linktype max_packets packets (r ∷ rs) ending h k =
    elim (some-cases (dissect_frame linktype r.payload)) [
      | inl e ↦ absurd (subst (Gives IsGiven) e (dissect_frame-total linktype r.payload))
      | inr (d, e) ↦
          let grown : length (packets ++ (imported r d ∷ [])) ≡ length packets + 1 =
            length-append packets (imported r d ∷ []) in
          elim (Bool-cases (leb max_packets (length packets + 1))) [
            | inl full ↦ rw (e, full, drain_from) (omega (arith, grown), refl)
            | inr room ↦
                rw (e, room, drain_from)
                  (drain_from-DrainedFits linktype max_packets (packets ++ (imported r d ∷ [])) rs
                    ending (ground (arith, grown)) k)
          ]
    ]

abbrev pub ParsedFits : ℕ → Outcome ParsedFile → Type 0
ParsedFits max_packets (gives p) = IsHonest max_packets p.drained
ParsedFits max_packets (refused e) = Unit
ParsedFits max_packets (escaped e) = ⊥
ParsedFits max_packets hangs = ⊥

at_cap-IsHonest :
    (max_packets : ℕ) (d : Drained)
    → IsHonest max_packets d
    → IsHonest max_packets (at_cap max_packets d)
at_cap-IsHonest max_packets d h = elim (Bool-cases (leb max_packets (length d.packets))) [
  | inl full ↦ rw full (h.0, refl)
  | inr room ↦ rw room h
]

check_drained-ParsedFits :
    (max_packets : ℕ) (name : Text) (o : Outcome Drained)
    → DrainedFits max_packets o
    → ParsedFits max_packets (check_drained max_packets name o)
check_drained-ParsedFits max_packets name (gives d) h =
    elim (Bool-cases (length d.packets == 0 && ltb 0 d.parse_errors)) [
      | inl nothing ↦ rw nothing tt
      | inr something ↦ rw something (at_cap-IsHonest max_packets d h)
    ]
check_drained-ParsedFits max_packets name (refused e) h = absurd h
check_drained-ParsedFits max_packets name (escaped e) h = absurd h
check_drained-ParsedFits max_packets name hangs h = absurd h

or_refused-ParsedFits :
    (max_packets : ℕ) (e : Raised) → IsPcapError e → ParsedFits max_packets (or_refused e)
or_refused-ParsedFits max_packets (pcap_error e) h = tt
or_refused-ParsedFits max_packets struct_error h = absurd h
or_refused-ParsedFits max_packets value_error h = absurd h

drained-ParsedFits :
    (linktype max_packets : ℕ) (name : Text) (rs : List PacketRecord) (ending : End)
    → 0 < max_packets
    → EndsWell ending
    → ParsedFits max_packets
        (check_drained max_packets name (drain_records linktype max_packets rs ending))
unfolding drain_records
drained-ParsedFits linktype max_packets name rs ending h k =
    check_drained-ParsedFits max_packets name (drain_from linktype max_packets [] rs ending)
      (drain_from-DrainedFits linktype max_packets [] rs ending h k)

parse_blocks-ParsedFits :
    (size max_packets : ℕ) (r : Result Blocks)
    → 0 < max_packets
    → PulledFits size r
    → ParsedFits max_packets (parse_blocks max_packets r)
parse_blocks-ParsedFits size max_packets (raised e) h k = or_refused-ParsedFits max_packets e k
parse_blocks-ParsedFits size max_packets (ok b) h k =
    drained-ParsedFits (meta_of b.first).linktype max_packets
      (linktype_name (meta_of b.first).linktype) b.records b.ending h k.0

parse_classic-ParsedFits :
    (max_packets size : ℕ) (r : Result GlobalHeader × Stream)
    → 0 < max_packets
    → RaisesOnlyPcap r.0
    → ParsedFits max_packets (parse_classic max_packets size r)
parse_classic-ParsedFits max_packets size (raised e, f) h k = or_refused-ParsedFits max_packets e k
parse_classic-ParsedFits max_packets size (ok header, f) h k =
    let reading = read_pcap_records f header (some size) (some max_packets) true in
    drained-ParsedFits header.network max_packets (linktype_name header.network) reading.records
      reading.ending h
      (read_pcap_records-ReadingFits f header (some size) (some max_packets) true).0

module _ (scale : Scale) where
  parse_as-ParsedFits :
      (max_packets : ℕ) (bytes : List ℕ) (found : Bool)
      → 0 < max_packets
      → ParsedFits max_packets (parse_as scale max_packets bytes (ok found))
  parse_as-ParsedFits max_packets bytes true h =
      parse_blocks-ParsedFits (length bytes) max_packets _ h
        (read_pcapng-PulledFits scale (at_start bytes) (some (length bytes)) (some max_packets))
  parse_as-ParsedFits max_packets bytes false h =
      parse_classic-ParsedFits max_packets (length bytes) (read_global_header (at_start bytes)) h
        (read_global_header-raises (at_start bytes))

  pub parse_pcap_file-ParsedFits :
      (max_packets : ℕ) (bytes : List ℕ)
      → 0 < max_packets
      → ParsedFits max_packets (parse_pcap_file scale max_packets bytes)
  unfolding parse_pcap_file
  parse_pcap_file-ParsedFits max_packets bytes h = unless_short (ltb (length (take 4 bytes)) 4) _ (
      subst (λ r. ParsedFits max_packets (parse_as scale max_packets bytes r))
        (sym (is_pcapng_lem (take 4 bytes) (omega (arith, length-take 4 bytes))))
        (parse_as-ParsedFits max_packets bytes _ h))
    where
      unless_short :
          (b : Bool) (o : Outcome ParsedFile)
          → ParsedFits max_packets o
          → ParsedFits max_packets (if b then refused too_short else o)
      unless_short true o k = tt
      unless_short false o k = k
