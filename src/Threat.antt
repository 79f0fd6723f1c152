-- ===== src/Threat.antt =====
-- threat/: threats, their store and the engine that runs the detectors. An instant is a number of
-- milliseconds.
pub mod Store
pub mod Engine
pub mod Settings
pub mod Bounded
pub mod Timeline
pub mod Counts
pub mod Lookup
pub mod Refinement
pub mod Listing
pub mod Cooldown
use net_audit.Common.Text.{Text}
use net_audit.Common.{ℕ, false, not, Option, List, arith}

pub data Severity : Type 0 where
  info low medium high critical : Severity

pub data ThreatStatus : Type 0 where
  active resolved acknowledged : ThreatStatus

-- What a detector reports of a finding beside its key; lists and objects are their JSON texts.
pub record Details : Type 0 where
  pub title : Text
  pub confidence_percent : ℕ
  pub category : Text
  pub mitre : Text
  pub summary : Text
  pub detail : Text
  pub evidence : Text
  pub indicators : Text
  pub metrics : Text
  pub related_connection_ids : Text
  pub related_log_ids : Text
  pub false_positive_notes : Text
  pub recommended_actions : Text

pub record Finding : Type 0 where
  pub key : Text
  pub finding_severity : Severity
  pub occurrence_count : ℕ
  pub observed_at : ℕ
  pub finding_details : Details

pub record Threat : Type 0 where
  pub id : Text
  pub detector_id : Text
  pub severity : Severity
  pub details : Details
  pub status : ThreatStatus
  pub first_seen : ℕ
  pub last_seen : ℕ
  pub occurrences : ℕ
  pub acknowledged_note : Option Text
  pub tags : Text
  pub enrichment : Text

pub record ThreatEvent : Type 0 where
  pub threat_id : Text
  pub event_detector_id : Text
  pub event_severity : Severity
  pub ts : ℕ

-- The tables of threats, in the order of insertion, and of events, the latest first.
pub record Tables : Type 0 where
  pub threats : List Threat
  pub events : List ThreatEvent
