-- ===== src/Pcap/Uploads.antt =====
-- What an upload comes to.
use net_audit.Pcap.Ng.{Scale}
use net_audit.Common.Text.{Text}
use mathlib.Core.List.{append_assoc, append-nil}
use net_audit.Pcap.Contained.{parse_pcap_file-ParsedFits, ParsedFits, IsHonest}
use net_audit.Pcap.Import.{
  ImportedPacket, Saved, saved, too_large, Outcome, gives, refused, escaped, hangs, ParsedFile,
  stream_to_disk, stream_from, parse_pcap_file,
}
use net_audit.Pcap.Sessions.{
  Session, Sessions, Reply, stored, upload_too_large, not_unique, never_returns, import_error,
  other_exception, State, import_upload, create_session, numbered, has_session, when_created,
  when_parsed, when_saved, sum_lengths,
}
use net_audit.Common.{
  ltb, ◌==◌, ltb→lt, ltb→ge, Bool-cases, length, length-append, ℕ, ◌+◌, ◌≤◌, ◌<◌, ◌≡◌, refl, sym,
  inl, inr, true, ◌||◌, List, [], ◌∷◌, ◌++◌, arith,
}

abbrev pub all_bytes : List (List ℕ) → List ℕ
all_bytes [] = []
all_bytes (c ∷ cs) = c ++ all_bytes cs

-- The file holds the chunks, or they pass the cap.
abbrev SavedFits : ℕ → List ℕ → Saved → Type 0
SavedFits max_bytes bytes (saved content) = (content ≡ bytes) × (length bytes ≤ max_bytes)
SavedFits max_bytes bytes too_large = max_bytes < length bytes

stream_from-SavedFits :
    (max_bytes : ℕ) (content : List ℕ) (chunks : List (List ℕ))
    → length content ≤ max_bytes
    → SavedFits max_bytes (content ++ all_bytes chunks) (stream_from max_bytes content chunks)
unfolding stream_from
stream_from-SavedFits max_bytes content [] h =
    (sym (append-nil content), omega (arith, length-append content (all_bytes [])))
stream_from-SavedFits max_bytes content ([] ∷ chunks) h =
    stream_from-SavedFits max_bytes content chunks h
stream_from-SavedFits max_bytes content ((b ∷ bs) ∷ chunks) h =
    elim (Bool-cases (ltb max_bytes (length content + length (b ∷ bs)))) [
      | inl over ↦
          rw (over, stream_from)
            (omega (
              arith,
              ltb→lt max_bytes (length content + length (b ∷ bs)) over,
              length-append content ((b ∷ bs) ++ all_bytes chunks),
              length-append (b ∷ bs) (all_bytes chunks),
            ))
      | inr within ↦
          rw (within, stream_from, sym (append_assoc content (b ∷ bs) (all_bytes chunks)))
            (stream_from-SavedFits max_bytes (content ++ (b ∷ bs)) chunks (
              omega (
                arith,
                ltb→ge max_bytes (length content + length (b ∷ bs)) within,
                length-append content (b ∷ bs),
              )))
    ]

-- A session is added with its packets, which are numbered from 0 and as many as it says.
abbrev pub IsAdded : ℕ → Text → Session → Sessions → Sessions → Type 0
IsAdded max_packets session_id s before after =
    (packets : List ImportedPacket) × ((after.sessions ≡ s ∷ before.sessions)
      × ((after.session_packets ≡ before.session_packets ++ numbered session_id 0 packets)
          × ((s.packet_count ≡ length packets)
              × ((s.total_bytes ≡ sum_lengths packets)
                  × ((length packets ≤ max_packets)
                      × ((s.truncated || s.parse_errors == 0) ≡ true))))))

abbrev pub UploadFits : ℕ → ℕ → Text → List ℕ → Sessions → Reply → Sessions → Type 0
UploadFits max_bytes max_packets session_id bytes before (stored s) after =
    (length bytes ≤ max_bytes) × IsAdded max_packets session_id s before after
UploadFits max_bytes max_packets session_id bytes before upload_too_large after =
    (max_bytes < length bytes) × (after ≡ before)
UploadFits max_bytes max_packets session_id bytes before not_unique after =
    (has_session session_id before.sessions ≡ true) × (after ≡ before)
UploadFits max_bytes max_packets session_id bytes before (import_error e) after = after ≡ before
UploadFits max_bytes max_packets session_id bytes before (other_exception e) after = ⊥
UploadFits max_bytes max_packets session_id bytes before never_returns after = ⊥

created-UploadFits :
    (max_bytes max_packets : ℕ) (session_id filename : Text) (now : ℕ) (bytes : List ℕ)
    (p : ParsedFile) (t : Sessions)
    → length bytes ≤ max_bytes
    → IsHonest max_packets p.drained
    → UploadFits max_bytes max_packets session_id bytes t
        (when_created (create_session session_id filename p now t) t).0
        (when_created (create_session session_id filename p now t) t).1.tables
unfolding create_session
created-UploadFits max_bytes max_packets session_id filename now bytes p t h k =
    elim (Bool-cases (has_session session_id t.sessions)) [
      | inl there ↦ rw (there) (there, refl)
      | inr fresh ↦ rw (fresh) (h, (p.drained.packets, (refl, (refl, (refl, (refl, (k.0, k.1)))))))
    ]

parsed-UploadFits :
    (max_bytes max_packets : ℕ) (session_id filename : Text) (now : ℕ) (bytes : List ℕ)
    (o : Outcome ParsedFile) (t : Sessions)
    → length bytes ≤ max_bytes
    → ParsedFits max_packets o
    → UploadFits max_bytes max_packets session_id bytes t
        (when_parsed session_id filename now o t).0
        (when_parsed session_id filename now o t).1.tables
parsed-UploadFits max_bytes max_packets session_id filename now bytes (gives p) t h k =
    created-UploadFits max_bytes max_packets session_id filename now bytes p t h k
parsed-UploadFits max_bytes max_packets session_id filename now bytes (refused e) t h k = refl
parsed-UploadFits max_bytes max_packets session_id filename now bytes (escaped e) t h k = absurd k
parsed-UploadFits max_bytes max_packets session_id filename now bytes hangs t h k = absurd k

saved-UploadFits :
    (scale : Scale) (max_bytes max_packets : ℕ) (session_id filename : Text) (now : ℕ)
    (bytes : List ℕ) (o : Saved) (t : Sessions)
    → 0 < max_packets
    → SavedFits max_bytes bytes o
    → UploadFits max_bytes max_packets session_id bytes t
        (when_saved scale session_id filename now max_packets o t).0
        (when_saved scale session_id filename now max_packets o t).1.tables
saved-UploadFits scale max_bytes max_packets session_id filename now bytes too_large t h k =
    (k, refl)
saved-UploadFits scale max_bytes max_packets session_id filename now bytes (saved content) t h k =
    parsed-UploadFits max_bytes max_packets session_id filename now bytes
      (parse_pcap_file scale max_packets content) t k.1
      (parse_pcap_file-ParsedFits scale max_packets content h)

-- Whatever is uploaded, if the cap on packets is not 0: the import ends, with a session, a clean refusal,
-- or the error of an id that is taken; a session is stored only for an upload within the cap on bytes,
-- with at most as many packets as the cap allows, counted, summed and numbered, and marked as truncated
-- after an error; an upload is too large only if it passes the cap; and without a session the tables stay
-- as they are.
pub import_upload-UploadFits :
    (scale : Scale) (session_id filename : Text) (now max_bytes max_packets : ℕ)
    (chunks : List (List ℕ)) (st : State)
    → 0 < max_packets
    → UploadFits max_bytes max_packets session_id
        (all_bytes chunks)
        st.tables
        (import_upload scale session_id filename now max_bytes max_packets chunks st).0
        (import_upload scale session_id filename now max_bytes max_packets chunks st).1.tables
unfolding import_upload stream_to_disk
import_upload-UploadFits scale session_id filename now max_bytes max_packets chunks st h =
    saved-UploadFits scale max_bytes max_packets session_id filename now (all_bytes chunks)
      (stream_to_disk max_bytes chunks) st.tables h
      (stream_from-SavedFits max_bytes [] chunks (omega arith))
