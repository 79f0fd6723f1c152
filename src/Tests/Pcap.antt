-- ===== src/Tests/Pcap.antt =====
-- Runs of the readers and the writer of pcap/format.py, and its theorems at concrete inputs.
use net_audit.Pcap.Format.Records.{as_record}
use net_audit.Struct.{to_bytes, little, unpack}
use net_audit.Pcap.Ng.Blocks.{blocks_from, new_section}
use net_audit.Pcap.Ng.Blocks.{read_pcapng}
use net_audit.Pcap.Ng.{Scale}
use net_audit.Pcap.Format.Reader.{
  read_pcap_records, read_global_header, read_from, read_record, read_header, returned, read_packet,
  broke,
}
use net_audit.Pcap.Format.{Stream, at_start, ok, raised, pcap_error, advance, PcapError}
use net_audit.Pcap.Format.{iter_write_pcap}
use net_audit.Pcap.Format.{Capture}
use net_audit.Common.{
  length, take, ℕ, ◌+◌, ◌-◌, ◌*◌, ◌/◌, ◌%◌, ◌^◌, ◌≡◌, refl, true, false, none, some, List, [], ◌∷◌,
  ◌++◌, map, arith,
}
use mathlib.Core.List.{flatten}
use net_audit.Pcap.Format.RoundTrip.{read_file-iter_write_pcap, read_file, standard_header}
use net_audit.Pcap.Format.Totality.{
  read_global_header-raises, read_pcap_records-ReadingFits, RaisesOnlyPcap, ReadingFits,
}
use net_audit.Pcap.Format.Limit.{read_pcap_records-limit}
use net_audit.Pcap.Ng.Loop.{read_pcapng-PulledFits, PulledFits}
use net_audit.Pcap.Ng.ByteOrderBug.{big_endian_pcapng-refused, big_endian_file}
use net_audit.Pcap.Ng.Skips.{blocks_from-skip}

abbrev ping : Capture
ping = record { ts_sec = 1700000000; ts_usec = 12; orig_len = 60; payload = 1 ∷ 2 ∷ 3 ∷ [] }

abbrev two_captures : List Capture
two_captures = ping ∷ (record { ts_sec = 2 ^ 32 + 5; ts_usec = 7; orig_len = 0; payload = [] }) ∷ []

read_file-iter_write_pcap_example :
    ((iter_write_pcap two_captures 65535 1).failure ≡ none)
    × (read_file (flatten (iter_write_pcap two_captures 65535 1).chunks)
        ≡ ok (
          standard_header 65535 1,
          record { records = map as_record two_captures; ending = returned },
        ))
read_file-iter_write_pcap_example =
    read_file-iter_write_pcap two_captures 65535 1 (omega arith) (omega arith) (omega arith)
      (omega arith)

abbrev broken_file : Stream
broken_file =
    at_start (1 ∷ 0 ∷ 0 ∷ 0 ∷ 2 ∷ 0 ∷ 0 ∷ 0 ∷ 255 ∷ 255 ∷ 255 ∷ 255 ∷ 9 ∷ 0 ∷ 0 ∷ 0 ∷ 4 ∷ [])

read_global_header-raises_example : RaisesOnlyPcap (read_global_header broken_file).0
read_global_header-raises_example = read_global_header-raises broken_file

read_pcap_records-ReadingFits_example :
    ReadingFits
      (length broken_file.unread)
      (read_pcap_records broken_file (standard_header 65535 1) (some 17) none true)
read_pcap_records-ReadingFits_example =
    read_pcap_records-ReadingFits broken_file (standard_header 65535 1) (some 17) none true

-- a length of 2^32 - 1
broken_file-oversized :
    read_pcap_records broken_file (standard_header 65535 1) (some 17) none true
    ≡ record { records = []; ending = broke (pcap_error (PcapError.oversized_record 0 4294967295)) }
unfolding read_pcap_records read_from read_record read_header read_packet unpack
broken_file-oversized = refl

read_pcap_records-limit_example :
    (read_pcap_records broken_file (standard_header 65535 1) none (some 1) true).records
    ≡ take 1 (read_pcap_records broken_file (standard_header 65535 1) none none true).records
read_pcap_records-limit_example =
    read_pcap_records-limit broken_file (standard_header 65535 1) none 1 true

abbrev whole_nanoseconds : Scale
whole_nanoseconds = record {
  seconds = λ r n. n / 1000000;
  nanoseconds = λ r n. n % 1000000 * 1000;
  below_microsecond = λ r. false;
}

read_pcapng-PulledFits_example :
    PulledFits (length broken_file.unread) (read_pcapng whole_nanoseconds broken_file none none)
read_pcapng-PulledFits_example = read_pcapng-PulledFits whole_nanoseconds broken_file none none

big_endian_pcapng-refused_example :
    read_pcapng whole_nanoseconds
      (at_start (big_endian_file 28 (0x1A ∷ 0x2B ∷ 0x3C ∷ 0x4D ∷ [])))
      none
      none
    ≡ raised (pcap_error (PcapError.oversized_block (28 * 2 ^ 24)))
big_endian_pcapng-refused_example =
    big_endian_pcapng-refused whole_nanoseconds 28 (0x1A ∷ 0x2B ∷ 0x3C ∷ 0x4D ∷ []) none none
      (omega arith) (omega arith) refl

blocks_from-skip_example :
    blocks_from whole_nanoseconds 9 none none new_section 0 0 (to_bytes little 4 5) (record {
      position = 4;
      unread = to_bytes little 4 16 ++ (((7 ∷ 7 ∷ 7 ∷ 7 ∷ []) ++ to_bytes little 4 16) ++ []);
    })
    ≡ blocks_from whole_nanoseconds 8 none none new_section
        (0 + 16)
        0
        (take {A = ℕ} 4 [])
        (advance 4 (record { position = 4 + 4 + (16 - 8); unread = [] }))
blocks_from-skip_example =
    blocks_from-skip whole_nanoseconds 8 none none new_section 0 0 4 5 16 (7 ∷ 7 ∷ 7 ∷ 7 ∷ []) []
      (omega arith) (omega arith) (omega arith) (omega arith) refl refl (omega arith) refl refl
