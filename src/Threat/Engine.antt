-- ===== src/Threat/Engine.antt =====
-- threat/engine.py: the run of the detectors, the life cycle of threats, and the settings.
use net_audit.Common.Attempt.{Attempt, failed, done}
use net_audit.Threat.Store.{list_threats, upsert_threat, set_acknowledged, record_event}
use net_audit.Threat.Store.{set_status}
use net_audit.Threat.{Threat, active, ThreatEvent, resolved, acknowledged}
use net_audit.Common.Text.{text_eq, codes}
use net_audit.Threat.{Finding}
use net_audit.Threat.Store.{get_threat}
use net_audit.Threat.{Details}
use net_audit.Threat.{ThreatStatus}
use net_audit.Threat.{Tables}
use net_audit.Common.Int.{ℤ}
use net_audit.Common.Text.{Text}
use net_audit.Common.{
  ltb, if◌then◌else◌, length, any, ℕ, ◌+◌, ◌*◌, max, Bool, true, false, not, ◌&&◌, Option, none,
  some, List, [], ◌∷◌, ◌++◌, map,
}

-- The id of a threat is made of its detector and its key by `_slug` and `_hash4`.
abbrev pub MakeId : Type 0
MakeId = Text → Text → Text

-- A number of JSON: an int, a float as a multiple of 2 ^ -1074, or a float that is not finite.
pub data Number : Type 0 where
  whole : ℤ → Number
  fraction : ℤ → Number
  infinite minus_infinite not_a_number : Number

-- The value of a tunable, or any other value that a request holds.
pub data Tunable : Type 0 where
  number_value : Number → Tunable
  bool_value : Bool → Tunable
  str_value : Text → Tunable
  other_value : Tunable

pub data TunableType : Type 0 where
  int_type float_type bool_type str_type : TunableType

-- `lowest` and `highest` are the source's `min` and `max`.
pub record TunableSpec : Type 0 where
  pub spec_key : Text
  pub spec_type : TunableType
  pub lowest : Option Number
  pub highest : Option Number

pub record Runtime : Type 0 where
  pub detector : Text
  pub category : Text
  pub mitre : Text
  pub cooldown : ℕ
  pub specs : List TunableSpec
  pub enabled : Bool
  pub tunables : List (Text × Tunable)
  pub fired_count : ℕ
  pub last_fired : Option ℕ

-- The engine's runtimes beside the tables; `saved` are the settings as the store has them.
pub record Engine : Type 0 where
  pub runtimes : List Runtime
  pub saved : List Runtime
  pub tables : Tables

-- A refired threat that was resolved is active again; one that was acknowledged stays so.
abbrev pub refired : ThreatStatus → ThreatStatus
refired resolved = active
refired active = active
refired acknowledged = acknowledged

abbrev pub of_runtime : Runtime → Details → Details
of_runtime r d = record d { category = r.category; mitre = r.mitre }

-- The row of a finding, for a threat that is new or there.
abbrev pub finding_row : Text → Runtime → Finding → Option Threat → Threat
finding_row threat_id r f none = record {
  id = threat_id;
  detector_id = r.detector;
  severity = f.finding_severity;
  details = of_runtime r f.finding_details;
  status = active;
  first_seen = f.observed_at;
  last_seen = f.observed_at;
  occurrences = f.occurrence_count;
  acknowledged_note = none;
  tags = codes "[]";
  enrichment = codes "{}";
}
finding_row threat_id r f (some t) = record {
  id = threat_id;
  detector_id = r.detector;
  severity = f.finding_severity;
  details = of_runtime r f.finding_details;
  status = refired t.status;
  first_seen = t.first_seen;
  last_seen = max f.observed_at t.last_seen;
  occurrences = t.occurrences + f.occurrence_count;
  acknowledged_note = t.acknowledged_note;
  tags = codes "[]";
  enrichment = codes "{}";
}

abbrev pub event_of : Text → Runtime → Finding → ThreatEvent
event_of threat_id r f = record {
  threat_id = threat_id;
  event_detector_id = r.detector;
  event_severity = f.finding_severity;
  ts = f.observed_at;
}

module _ (make_id : MakeId) where
  unfoldable pub upsert_finding : Runtime → Finding → Tables → Tables
  unfolding get_threat upsert_threat record_event
  upsert_finding r f t =
      let threat_id : Text = make_id r.detector f.key in
      record_event (event_of threat_id r f) (record t {
        threats =
            upsert_threat (finding_row threat_id r f (get_threat threat_id t.threats)) t.threats;
      })

  unfoldable pub upsert_findings : Runtime → List Finding → Tables → Tables
  unfolding upsert_finding
  upsert_findings r [] t = t
  upsert_findings r (f ∷ fs) t = upsert_findings r fs (upsert_finding r f t)

  abbrev pub touched_by : Runtime → List Finding → List Text
  touched_by r fs = map (λ f. make_id r.detector f.key) fs

abbrev pub fired : ℕ → List Finding → Runtime → Runtime
fired now [] r = r
fired now (f ∷ fs) r = record r {
  fired_count = r.fired_count + length (f ∷ fs);
  last_fired = some now;
}

unfoldable pub save_detector_settings : Runtime → List Runtime → List Runtime
save_detector_settings r [] = r ∷ []
save_detector_settings r (s ∷ ss) =
    let rest : List Runtime = save_detector_settings r ss in
    if text_eq s.detector r.detector then r ∷ ss else s ∷ rest

abbrev pub save_fired : List Finding → Runtime → List Runtime → List Runtime
save_fired [] r saved = saved
save_fired (f ∷ fs) r saved = save_detector_settings r saved

-- What the detectors report, by their ids, or the exception of one.
abbrev pub Reports : Type 0
Reports = Text → Attempt (List Finding)

-- The loop over the detectors: the runtimes behind it, the tables, and the ids it touched. An exception
-- of a detector ends it, with what was done so far.
pub record Progress : Type 0 where
  pub after : List Runtime
  pub saved_rows : List Runtime
  pub rows : Tables
  pub touched : List Text
  pub raised : Option Text

abbrev pub stopped : Text → List Runtime → List Runtime → Tables → Progress
stopped error rs saved t = record {
  after = rs;
  saved_rows = saved;
  rows = t;
  touched = [];
  raised = some error;
}

abbrev pub ahead : Runtime → List Text → Progress → Progress
ahead r ids p = record p { after = r ∷ p.after; touched = ids ++ p.touched }

unfoldable pub run_detectors :
    MakeId → Reports → ℕ → List Runtime → List Runtime → Tables → Progress
unfolding upsert_findings save_detector_settings
run_detectors make_id reports now [] saved t = record {
  after = [];
  saved_rows = saved;
  rows = t;
  touched = [];
  raised = none;
}
run_detectors make_id reports now (r ∷ rs) saved t = elim r.enabled [
  | false ↦ ahead r [] (run_detectors make_id reports now rs saved t)
  | true ↦ elim (reports r.detector) [
    | failed error ↦ stopped error (r ∷ rs) saved t
    | done fs ↦ ahead (fired now fs r) (touched_by make_id r fs) (
        run_detectors make_id reports now rs (save_fired fs (fired now fs r) saved)
          (upsert_findings make_id r fs t))
  ]
]

-- `Detector.cooldown_seconds`
abbrev pub default_cooldown : ℕ
default_cooldown = 1800 * 1000

unfoldable pub cooldown_of : List Runtime → Text → ℕ
cooldown_of [] detector_id = default_cooldown
cooldown_of (r ∷ rs) detector_id =
    if text_eq r.detector detector_id then r.cooldown else cooldown_of rs detector_id

abbrev pub is_touched : Text → List Text → Bool
is_touched threat_id ids = any (text_eq threat_id) ids

unfoldable pub is_overdue : List Runtime → ℕ → Threat → Bool
unfolding cooldown_of
is_overdue rs now t = ltb (t.last_seen + cooldown_of rs t.detector_id) now

-- The loop over the threats that were listed.
unfoldable pub cool : List Runtime → ℕ → List Text → List Threat → List Threat → List Threat
unfolding set_status is_overdue
cool rs now ids [] ts = ts
cool rs now ids (t ∷ listed) ts =
    if not (is_touched t.id ids) && is_overdue rs now t
    then cool rs now ids listed (set_status t.id resolved ts)
    else cool rs now ids listed ts

unfoldable pub apply_cooldowns : List Runtime → ℕ → List Text → List Threat → List Threat
unfolding cool list_threats
apply_cooldowns rs now ids ts =
    cool rs now ids (list_threats 1000 active ts ++ list_threats 1000 acknowledged ts) ts

abbrev pub when_run : ℕ → Progress → Option Text → Option Text × Engine
when_run now p (some error) =
    (some error, record { runtimes = p.after; saved = p.saved_rows; tables = p.rows })
when_run now p none = (
  none,
  record {
    runtimes = p.after;
    saved = p.saved_rows;
    tables = record p.rows { threats = apply_cooldowns p.after now p.touched p.rows.threats };
  },
)

unfoldable pub run_once : MakeId → Reports → ℕ → Engine → Option Text × Engine
unfolding run_detectors apply_cooldowns
run_once make_id reports now e =
    let p : Progress = run_detectors make_id reports now e.runtimes e.saved e.tables in
    when_run now p p.raised

-- Nothing is done for an id that is not there; the result is the row as it reads afterwards.
unfoldable pub set_acknowledged_if :
    Option Threat → Text → Bool → Option Text → Tables → Option Threat × Tables
unfolding set_acknowledged get_threat
set_acknowledged_if none threat_id is_acknowledged remark t = (none, t)
set_acknowledged_if (some row) threat_id is_acknowledged remark t =
    let after : List Threat = set_acknowledged threat_id is_acknowledged remark t.threats in
    (get_threat threat_id after, record t { threats = after })

unfoldable pub acknowledge : Text → Option Text → Tables → Option Threat × Tables
unfolding set_acknowledged_if get_threat
acknowledge threat_id remark t =
    set_acknowledged_if (get_threat threat_id t.threats) threat_id true remark t

-- The note of a withdrawal is dropped.
unfoldable pub unacknowledge : Text → Option Text → Tables → Option Threat × Tables
unfolding set_acknowledged_if get_threat
unacknowledge threat_id remark t =
    set_acknowledged_if (get_threat threat_id t.threats) threat_id false none t
