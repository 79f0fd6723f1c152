-- ===== src/Pcap/Format/RoundTrip.antt =====
-- A file that `iter_write_pcap` wrote is read back by the reader, whatever the payloads hold.
use net_audit.Pcap.Format.Records.{CaptureFits, as_record, read_from-written}
use net_audit.Struct.Words.{length-to_bytes}
use mathlib.Core.List.{flatten}
use net_audit.Common.{
  ℕ, ◌+◌, ◌^◌, ◌≤◌, ◌<◌, ◌≡◌, refl, sym, ap, ◌∙◌, true, false, none, some, List, [], ◌∷◌, ◌++◌, map,
  arith, length, take, length-append, take-append, drop-append, All,
}
use net_audit.Common.Int.{pos}
use net_audit.Struct.{little, pack, unpack, to_bytes}
use net_audit.Struct.Laws.{length-pack, unpack-pack, pack_total, pack_inv}
use net_audit.Pcap.Format.{
  Result, ok, raised, GlobalHeader, Stream, absolute_max_snaplen, magic_usec, at_start,
  global_header_format, write_global_header, Capture, write_records, iter_write_pcap,
}
use net_audit.Pcap.Format.Reader.{
  unpack_u32, magic_lookup, with_magic, parse_global_header, read_global_header, returned, Reading,
  read_pcap_records,
}

abbrev pub standard_header : ℕ → ℕ → GlobalHeader
standard_header snaplen linktype = record {
  magic = magic_usec;
  version_major = 2;
  version_minor = 4;
  thiszone = pos 0;
  sigfigs = 0;
  snaplen = snaplen;
  network = linktype;
  byte_order = little;
  nanosecond = false;
}

abbrev header_values : ℕ → ℕ → List ℕ
header_values snaplen linktype = magic_usec ∷ 2 ∷ 4 ∷ 0 ∷ 0 ∷ snaplen ∷ linktype ∷ []

magic_lookup_usec : magic_lookup (to_bytes little 4 magic_usec) ≡ ok (some (little, false))
unfolding magic_lookup unpack_u32 unpack to_bytes
magic_lookup_usec = refl

with_magic-written :
    (snaplen linktype : ℕ) (front : List ℕ)
    → 0 < snaplen
    → snaplen ≤ absolute_max_snaplen
    → pack little global_header_format (header_values snaplen linktype) ≡ some front
    → with_magic front (some (little, false)) ≡ ok (standard_header snaplen linktype)
unfolding with_magic
with_magic-written snaplen linktype front low high e =
    rw (unpack-pack little global_header_format (header_values snaplen linktype) e, with_magic)
      (ground arith)

parse-written :
    (snaplen linktype : ℕ) (front : List ℕ)
    → 0 < snaplen
    → snaplen ≤ absolute_max_snaplen
    → pack little global_header_format (header_values snaplen linktype) ≡ some front
    → parse_global_header front ≡ ok (standard_header snaplen linktype)
unfolding parse_global_header
parse-written snaplen linktype front low high e =
    let width : length front ≡ 24 =
      length-pack little global_header_format (header_values snaplen linktype) e in
    let (fits, (tail, p, split)) =
      pack_inv little 4 (2 ∷ 2 ∷ 4 ∷ 4 ∷ 4 ∷ 4 ∷ []) magic_usec
        (2 ∷ 4 ∷ 0 ∷ 0 ∷ snaplen ∷ linktype ∷ []) e in
    let magic : take 4 front ≡ to_bytes little 4 magic_usec =
      ap (take 4) split
      ∙ take-append (to_bytes little 4 magic_usec) tail 4
          (sym (length-to_bytes little 4 magic_usec)) in
    rw (width, magic, magic_lookup_usec, parse_global_header)
      (with_magic-written snaplen linktype front low high e)

header-written :
    (snaplen linktype : ℕ) (front rest : List ℕ)
    → 0 < snaplen
    → snaplen ≤ absolute_max_snaplen
    → pack little global_header_format (header_values snaplen linktype) ≡ some front
    → read_global_header (at_start (front ++ rest))
      ≡ (ok (standard_header snaplen linktype), record { position = 24; unread = rest })
unfolding read_global_header
header-written snaplen linktype front rest low high e =
    let width : 24 ≡ length front =
      sym (length-pack little global_header_format (header_values snaplen linktype) e) in
    rw (
      take-append front rest 24 width,
      drop-append front rest 24 width,
      ← width,
      parse-written snaplen linktype front low high e,
    )

-- A whole file: the header, then the records, with the size of the file known.
abbrev pub records_of : List ℕ → Result GlobalHeader × Stream → Result (GlobalHeader × Reading)
records_of bytes (ok header, f) =
    ok (header, read_pcap_records f header (some (length bytes)) none true)
records_of bytes (raised e, f) = raised e

abbrev pub read_file : List ℕ → Result (GlobalHeader × Reading)
read_file bytes = records_of bytes (read_global_header (at_start bytes))

-- Writing captures with `iter_write_pcap` raises nothing, if the snapshot length lies between 1 and
-- 16 MiB, the link type fits 32 bits, and each capture has an original length that fits 32 bits and at most 4 MiB of data;
-- and reading the file, header and records, gives back the header's values and every capture in order, its seconds and
-- fraction modulo 2^32, with a normal return.
pub read_file-iter_write_pcap :
    (cs : List Capture) (snaplen linktype : ℕ)
    → 0 < snaplen
    → snaplen ≤ absolute_max_snaplen
    → linktype < 2 ^ 32
    → All CaptureFits cs
    → ((iter_write_pcap cs snaplen linktype).failure ≡ none)
      × (read_file (flatten (iter_write_pcap cs snaplen linktype).chunks)
          ≡ ok (
            standard_header snaplen linktype,
            record { records = map as_record cs; ending = returned },
          ))
unfolding iter_write_pcap flatten write_global_header read_pcap_records
read_file-iter_write_pcap cs snaplen linktype low high net fits =
    let (front, e) =
      pack_total little global_header_format (header_values snaplen linktype) (omega arith) in
    let header = standard_header snaplen linktype in
    let rest = flatten (write_records cs).chunks in
    let width : length front ≡ 24 =
      length-pack little global_header_format (header_values snaplen linktype) e in
    let (clean, all) =
      read_from-written (length rest + 1) header (length (front ++ rest)) 0 24 cs fits refl refl
        (omega (arith, length-append front rest)) (omega arith) in
    (
      rw (e, iter_write_pcap) clean,
      rw (e, iter_write_pcap)
          (ap (records_of (front ++ rest)) (header-written snaplen linktype front rest low high e)
            ∙ ap (λ r. ok (header, r)) all),
    )
