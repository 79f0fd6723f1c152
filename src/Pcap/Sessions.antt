-- ===== src/Pcap/Sessions.antt =====
-- pcap/session_store.py: the tables of imported sessions and of their packets; and `import_upload` of
-- pcap/import_pipeline.py, which stores into them.
use net_audit.Pcap.Ng.{Scale}
use net_audit.Pcap.Format.{Raised}
use net_audit.Common.Text.{Text, text_eq}
use net_audit.Pcap.Import.{
  ImportedPacket, Saved, saved, too_large, ImportError, Outcome, gives, refused, escaped, hangs,
  ParsedFile, stream_to_disk, parse_pcap_file,
}
use net_audit.Common.{
  if◌then◌else◌, length, take, drop, ℕ, ◌+◌, min, max, Bool, false, ◌||◌, Option, none, some, List,
  [], ◌∷◌, ◌++◌,
}

pub record Session : Type 0 where
  pub id : Text
  pub filename : Text
  pub packet_count : ℕ
  pub total_bytes : ℕ
  pub first_packet : Option ℕ
  pub last_packet : Option ℕ
  pub linktype : Text
  pub truncated : Bool
  pub parse_errors : ℕ
  pub imported_at : ℕ

pub record SessionPacket : Type 0 where
  pub session_id : Text
  pub seq : ℕ
  pub packet : ImportedPacket

pub record Sessions : Type 0 where
  pub sessions : List Session
  pub session_packets : List SessionPacket

abbrev pub sum_lengths : List ImportedPacket → ℕ
sum_lengths [] = 0
sum_lengths (p ∷ ps) = p.byte_count + sum_lengths ps

-- min(…, default=None) and max(…, default=None)
abbrev pub fold_times : (ℕ → ℕ → ℕ) → List ImportedPacket → Option ℕ
fold_times pick [] = none
fold_times pick (p ∷ ps) = some (from p.ts_epoch ps)
  where
    from : ℕ → List ImportedPacket → ℕ
    from t [] = t
    from t (q ∷ qs) = from (pick t q.ts_epoch) qs

-- enumerate(packets)
unfoldable pub numbered : Text → ℕ → List ImportedPacket → List SessionPacket
numbered session_id n [] = []
numbered session_id n (p ∷ ps) =
    (record { session_id = session_id; seq = n; packet = p }) ∷ numbered session_id (n + 1) ps

unfoldable pub has_session : Text → List Session → Bool
has_session session_id [] = false
has_session session_id (s ∷ ss) = text_eq s.id session_id || has_session session_id ss

abbrev pub session_of : Text → Text → ParsedFile → ℕ → Session
session_of session_id filename p now = record {
  id = session_id;
  filename = filename;
  packet_count = length p.drained.packets;
  total_bytes = sum_lengths p.drained.packets;
  first_packet = fold_times min p.drained.packets;
  last_packet = fold_times max p.drained.packets;
  linktype = p.name;
  truncated = p.drained.truncated;
  parse_errors = p.drained.parse_errors;
  imported_at = now;
}

-- One transaction: none is the IntegrityError of an id that is there, and its rollback.
unfoldable pub create_session :
    Text → Text → ParsedFile → ℕ → Sessions → Option (Session × Sessions)
unfolding has_session numbered
create_session session_id filename p now t =
    if has_session session_id t.sessions
    then none
    else some (
      session_of session_id filename p now,
      record {
        sessions = session_of session_id filename p now ∷ t.sessions;
        session_packets = t.session_packets ++ numbered session_id 0 p.drained.packets;
      },
    )

unfoldable pub get_session : Text → List Session → Option Session
get_session session_id [] = none
get_session session_id (s ∷ ss) =
    if text_eq s.id session_id then some s else get_session session_id ss

unfoldable pub without_packets : Text → List SessionPacket → List SessionPacket
without_packets session_id [] = []
without_packets session_id (p ∷ ps) =
    let rest : List SessionPacket = without_packets session_id ps in
    if text_eq p.session_id session_id then rest else p ∷ rest

unfoldable pub without_session : Text → List Session → List Session
without_session session_id [] = []
without_session session_id (s ∷ ss) =
    let rest : List Session = without_session session_id ss in
    if text_eq s.id session_id then rest else s ∷ rest

-- The answer is whether a session was deleted.
unfoldable pub delete_session : Text → Sessions → Bool × Sessions
unfolding has_session without_packets without_session
delete_session session_id t = (
  has_session session_id t.sessions,
  record {
    sessions = without_session session_id t.sessions;
    session_packets = without_packets session_id t.session_packets;
  },
)

unfoldable pub packets_of : Text → List SessionPacket → List SessionPacket
packets_of session_id [] = []
packets_of session_id (p ∷ ps) =
    let rest : List SessionPacket = packets_of session_id ps in
    if text_eq p.session_id session_id then p ∷ rest else rest

-- `query_session_packets` without a protocol: the rows of a page, and the number of all.
unfoldable pub query_session_packets : Text → ℕ → ℕ → Sessions → List SessionPacket × ℕ
unfolding packets_of
query_session_packets session_id limit offset t = (
  take limit (drop offset (packets_of session_id t.session_packets)),
  length (packets_of session_id t.session_packets),
)

-- What an upload comes to; every other exception and a hang are named as such.
pub data Reply : Type 0 where
  stored : Session → Reply
  upload_too_large not_unique never_returns : Reply
  import_error : ImportError → Reply
  other_exception : Raised → Reply

-- The temporary file and the tables.
pub record State : Type 0 where
  pub temporary : Option (List ℕ)
  pub tables : Sessions

-- `finally`: the temporary file is removed.
abbrev pub cleaned : Sessions → State
cleaned t = record { temporary = none; tables = t }

abbrev pub when_created : Option (Session × Sessions) → Sessions → Reply × State
when_created none t = (not_unique, cleaned t)
when_created (some (s, u)) t = (stored s, cleaned u)

abbrev pub when_parsed : Text → Text → ℕ → Outcome ParsedFile → Sessions → Reply × State
when_parsed session_id filename now (gives p) t =
    when_created (create_session session_id filename p now t) t
when_parsed session_id filename now (refused e) t = (import_error e, cleaned t)
when_parsed session_id filename now (escaped e) t = (other_exception e, cleaned t)
when_parsed session_id filename now hangs t = (never_returns, cleaned t)

module _ (scale : Scale) where
  abbrev pub when_saved : Text → Text → ℕ → ℕ → Saved → Sessions → Reply × State
  when_saved session_id filename now max_packets too_large t = (upload_too_large, cleaned t)
  when_saved session_id filename now max_packets (saved bytes) t =
      when_parsed session_id filename now (parse_pcap_file scale max_packets bytes) t

  unfoldable pub import_upload : Text → Text → ℕ → ℕ → ℕ → List (List ℕ) → State → Reply × State
  unfolding stream_to_disk parse_pcap_file create_session
  import_upload session_id filename now max_bytes max_packets chunks st =
      when_saved session_id filename now max_packets (stream_to_disk max_bytes chunks) st.tables
