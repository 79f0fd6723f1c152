-- ===== src/Tests/Threat.antt =====
-- The threats and the engine at concrete findings.
use net_audit.Threat.Cooldown.{IsSettled, progress, run_once-IsSettled}
use net_audit.Threat.Counts.{count_at-timeline}
use net_audit.Threat.Bounded.{patched, InBounds, handle_all, ran, handle_all-InBounds}
use net_audit.Threat.Store.{upsert_threat, get_threat}
use net_audit.Common.Int.{pos}
use net_audit.Common.Attempt.{done}
use net_audit.Common.Text.{codes, text_eq}
use net_audit.Threat.Timeline.{count_at, timeline, number_in}
use net_audit.Threat.{ThreatEvent}
use net_audit.Threat.Refinement.{view, call_all, found, cooled, replay, call_all-replay}
use net_audit.Threat.{Tables, high}
use net_audit.Threat.{Finding}
use net_audit.Threat.{Details}
use net_audit.Threat.Settings.{
  Patch, object, patch_detector, spec_of, patch_in, validate_tunable, patch_runtime, validate_as,
  patch_tunables, check_range, below_min, less,
}
use net_audit.Threat.Engine.{
  int_type, number_value, whole, MakeId, TunableSpec, Runtime, Engine, Reports, run_once,
  bool_value, run_detectors, event_of, upsert_findings, upsert_finding,
}
use net_audit.Common.{ℕ, ◌+◌, ◌*◌, ◌≡◌, refl, true, false, none, some, List, [], ◌∷◌, ◌++◌, arith}

abbrev sample_id : MakeId
sample_id detector_id key = detector_id ++ key

abbrev sample_details : Details
sample_details = record {
  title = codes "Port scan";
  confidence_percent = 80;
  category = codes "recon";
  mitre = codes "[]";
  summary = [];
  detail = [];
  evidence = codes "[]";
  indicators = codes "[]";
  metrics = codes "[]";
  related_connection_ids = codes "[]";
  related_log_ids = codes "[]";
  false_positive_notes = [];
  recommended_actions = codes "[]";
}

abbrev scan_at : ℕ → Finding
scan_at observed_at = record {
  key = codes "10.0.0.5";
  finding_severity = high;
  occurrence_count = 2;
  observed_at = observed_at;
  finding_details = sample_details;
}

abbrev min_ports : TunableSpec
min_ports = record {
  spec_key = codes "min_ports";
  spec_type = int_type;
  lowest = some (whole (pos 5));
  highest = some (whole (pos 500));
}

abbrev scans : Runtime
scans = record {
  detector = codes "scan";
  category = codes "recon";
  mitre = codes "[]";
  cooldown = 60000;
  specs = min_ports ∷ [];
  enabled = true;
  tunables = (codes "min_ports", number_value (whole (pos 15))) ∷ [];
  fired_count = 0;
  last_fired = none;
}

abbrev no_tables : Tables
no_tables = record { threats = []; events = [] }

abbrev sample_engine : Engine
sample_engine = record { runtimes = scans ∷ []; saved = []; tables = no_tables }

abbrev sample_reports : Reports
sample_reports detector_id = done (scan_at 1000 ∷ [])

call_all-replay_example :
    view
      (call_all sample_id
        (found scans (scan_at 1000)
          ∷ cooled (codes "scan10.0.0.5")
          ∷ found scans (scan_at 500)
          ∷ [])
        no_tables).threats
    ≡ replay sample_id
        (found scans (scan_at 1000)
          ∷ cooled (codes "scan10.0.0.5")
          ∷ found scans (scan_at 500)
          ∷ [])
        (view no_tables.threats)
call_all-replay_example =
    call_all-replay sample_id
      (found scans (scan_at 1000) ∷ cooled (codes "scan10.0.0.5") ∷ found scans (scan_at 500) ∷ [])
      no_tables

run_once-IsSettled_example :
    IsSettled
      (run_once sample_id sample_reports 2000 sample_engine).1
      2000
      (progress sample_id sample_reports 2000 sample_engine)
unfolding run_once run_detectors upsert_findings upsert_finding upsert_threat get_threat
run_once-IsSettled_example =
    run_once-IsSettled sample_id sample_reports 2000 sample_engine refl (omega arith)

abbrev sample_events : List ThreatEvent
sample_events = event_of [] scans (scan_at 1000) ∷ event_of [] scans (scan_at 2500) ∷ []

count_at-timeline_example :
    count_at 1 high (timeline 0 4000 2000 sample_events)
    ≡ number_in (0 + 1 * 2000) (0 + 1 * 2000 + 2000) 4000 high sample_events
count_at-timeline_example =
    count_at-timeline 0 4000 2000 1 high sample_events (omega arith) (omega arith)

-- A value that is too small is refused, but a detector that the same patch turned off stays off.
abbrev low_patch : Patch
low_patch = record {
  given_enabled = some (bool_value false);
  given_tunables = object ((codes "min_ports", number_value (whole (pos 1))) ∷ []);
}

low_patch_refused :
    (patch_detector (codes "scan") low_patch sample_engine).0 ≡ some (below_min (codes "min_ports"))
unfolding patch_detector patch_in patch_runtime patch_tunables validate_tunable validate_as
    check_range less spec_of text_eq
low_patch_refused = refl

low_patch_applied :
    (patch_detector (codes "scan") low_patch sample_engine).1.runtimes
    ≡ record scans { enabled = false } ∷ []
unfolding patch_detector patch_in patch_runtime patch_tunables validate_tunable validate_as
    check_range less spec_of text_eq
low_patch_applied = refl

handle_all-InBounds_example : InBounds (
    handle_all sample_id
      (patched (codes "scan") low_patch ∷ ran sample_reports 2000 ∷ [])
      sample_engine)
unfolding spec_of validate_tunable validate_as check_range less text_eq
handle_all-InBounds_example =
    handle_all-InBounds sample_id (patched (codes "scan") low_patch ∷ ran sample_reports 2000 ∷ [])
      sample_engine (((refl, tt), tt), tt)
