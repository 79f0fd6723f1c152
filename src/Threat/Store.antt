-- ===== src/Threat/Store.antt =====
-- threat/store.py: the tables of threats and of their events.
use net_audit.Threat.{ThreatEvent, acknowledged, Tables, active}
use net_audit.Threat.{ThreatStatus}
use net_audit.Threat.{Threat}
use net_audit.Common.Text.{Text, text_eq}
use net_audit.Threat.{active, resolved, acknowledged}
use net_audit.Common.{
  ltb, leb, if◌then◌else◌, take, ℕ, min, Bool, true, false, ◌&&◌, Option, none, some, List, [], ◌∷◌,
}

unfoldable pub get_threat : Text → List Threat → Option Threat
get_threat threat_id [] = none
get_threat threat_id (t ∷ ts) = if text_eq t.id threat_id then some t else get_threat threat_id ts

-- ON CONFLICT(id) DO UPDATE: the detector, the first sighting, the note and the enrichment stay.
abbrev pub merged : Threat → Threat → Threat
merged old row = record row {
  detector_id = old.detector_id;
  first_seen = old.first_seen;
  acknowledged_note = old.acknowledged_note;
  tags = old.tags;
  enrichment = old.enrichment;
}

unfoldable pub upsert_threat : Threat → List Threat → List Threat
upsert_threat row [] = row ∷ []
upsert_threat row (t ∷ ts) =
    let rest : List Threat = upsert_threat row ts in
    if text_eq t.id row.id then merged t row ∷ ts else t ∷ rest

-- UPDATE threats SET … WHERE id = ?
unfoldable pub update_threat : Text → (Threat → Threat) → List Threat → List Threat
update_threat threat_id change [] = []
update_threat threat_id change (t ∷ ts) =
    let rest : List Threat = update_threat threat_id change ts in
    if text_eq t.id threat_id then change t ∷ rest else t ∷ rest

abbrev pub with_status : ThreatStatus → Threat → Threat
with_status status t = record t { status = status }

unfoldable pub set_status : Text → ThreatStatus → List Threat → List Threat
unfolding update_threat
set_status threat_id status ts = update_threat threat_id (with_status status) ts

abbrev pub with_acknowledged : Bool → Option Text → Threat → Threat
with_acknowledged true remark t = record t { status = acknowledged; acknowledged_note = remark }
with_acknowledged false remark t = record t { status = active; acknowledged_note = none }

unfoldable pub set_acknowledged : Text → Bool → Option Text → List Threat → List Threat
unfolding update_threat
set_acknowledged threat_id is_acknowledged remark ts =
    update_threat threat_id (with_acknowledged is_acknowledged remark) ts

abbrev pub with_enrichment : Text → Text → Threat → Threat
with_enrichment tags enrichment t = record t { tags = tags; enrichment = enrichment }

unfoldable pub set_threat_enrichment : Text → Text → Text → List Threat → List Threat
unfolding update_threat
set_threat_enrichment threat_id tags enrichment ts =
    update_threat threat_id (with_enrichment tags enrichment) ts

abbrev pub max_limit : ℕ
max_limit = 1000

-- WHERE status = ?
abbrev pub same_status : ThreatStatus → ThreatStatus → Bool
same_status active active = true
same_status resolved resolved = true
same_status acknowledged acknowledged = true
same_status _ _ = false

unfoldable pub with_status_of : ThreatStatus → List Threat → List Threat
with_status_of status [] = []
with_status_of status (t ∷ ts) =
    let rest : List Threat = with_status_of status ts in
    if same_status t.status status then t ∷ rest else rest

-- ORDER BY last_seen_epoch DESC
unfoldable pub insert_latest : Threat → List Threat → List Threat
insert_latest t [] = t ∷ []
insert_latest t (u ∷ us) =
    let rest : List Threat = insert_latest t us in
    if ltb t.last_seen u.last_seen then u ∷ rest else t ∷ u ∷ us

unfoldable pub sort_latest : List Threat → List Threat
unfolding insert_latest
sort_latest [] = []
sort_latest (t ∷ ts) = insert_latest t (sort_latest ts)

-- `list_threats` as the engine calls it: the latest of a status, up to a limit.
unfoldable pub list_threats : ℕ → ThreatStatus → List Threat → List Threat
unfolding sort_latest with_status_of
list_threats limit status ts = take (min limit max_limit) (sort_latest (with_status_of status ts))

unfoldable pub record_event : ThreatEvent → Tables → Tables
record_event e t = record t { events = e ∷ t.events }

-- ts_epoch >= ? AND ts_epoch <= ?
unfoldable pub events_between : ℕ → ℕ → List ThreatEvent → List ThreatEvent
events_between since until [] = []
events_between since until (e ∷ es) =
    let rest : List ThreatEvent = events_between since until es in
    if leb since e.ts && leb e.ts until then e ∷ rest else rest
