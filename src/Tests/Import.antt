-- ===== src/Tests/Import.antt =====
-- An import of a small capture, and of one that is too large.
use net_audit.Common.Text.{codes}
use net_audit.Pcap.Import.{stream_to_disk, stream_from}
use net_audit.Pcap.Uploads.{UploadFits, all_bytes, import_upload-UploadFits}
use net_audit.Pcap.Ng.{Scale}
use net_audit.Pcap.Sessions.{State, upload_too_large, import_upload}
use net_audit.Common.{ℕ, ◌≡◌, refl, false, none, List, [], ◌∷◌, arith}

abbrev seconds_only : Scale
seconds_only = record { seconds = λ r n. n; nanoseconds = λ r n. 0; below_microsecond = λ r. false }

abbrev no_sessions : State
no_sessions = record { temporary = none; tables = record { sessions = []; session_packets = [] } }

-- A global header of little-endian microseconds, and the header of a record with two bytes.
abbrev header_bytes : List ℕ
header_bytes =
    212 ∷ 195 ∷ 178 ∷ 161 ∷ 2 ∷ 0 ∷ 4 ∷ 0 ∷ 0 ∷ 0 ∷ 0 ∷ 0 ∷ 0 ∷ 0 ∷ 0 ∷ 0 ∷ 255 ∷ 255 ∷ 0 ∷ 0 ∷ 1
    ∷ 0 ∷ 0 ∷ 0 ∷ []

abbrev record_bytes : List ℕ
record_bytes = 9 ∷ 0 ∷ 0 ∷ 0 ∷ 1 ∷ 0 ∷ 0 ∷ 0 ∷ 2 ∷ 0 ∷ 0 ∷ 0 ∷ 60 ∷ 0 ∷ 0 ∷ 0 ∷ 7 ∷ 8 ∷ []

import_upload-UploadFits_example :
    UploadFits 100 10
      (codes "s")
      (all_bytes (header_bytes ∷ record_bytes ∷ []))
      no_sessions.tables
      (import_upload seconds_only
        (codes "s")
        (codes "f")
        5
        100
        10
        (header_bytes ∷ record_bytes ∷ [])
        no_sessions).0
      (import_upload seconds_only
        (codes "s")
        (codes "f")
        5
        100
        10
        (header_bytes ∷ record_bytes ∷ [])
        no_sessions).1.tables
import_upload-UploadFits_example =
    import_upload-UploadFits seconds_only (codes "s") (codes "f") 5 100 10
      (header_bytes ∷ record_bytes ∷ []) no_sessions (omega arith)

too_large_upload :
    (import_upload seconds_only (codes "s") (codes "f") 5 3 10 (header_bytes ∷ []) no_sessions).0
    ≡ upload_too_large
unfolding import_upload stream_to_disk stream_from
too_large_upload = refl
