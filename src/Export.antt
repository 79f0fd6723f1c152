-- ===== src/Export.antt =====
-- export/: the events that are exported, and their formats.
pub mod Escapes
pub mod Cef
pub mod Reader
pub mod EscapeLaws
pub mod Newlines
pub mod Pieces
pub mod Extension
pub mod Line
pub mod RoundTrip
use net_audit.Common.Text.{Text}
use net_audit.Common.{ℕ, ap, Option, arith}

-- A normalised event, by the keys that the formats read.
pub record Event : Type 0 where
  pub ts_epoch : ℕ
  pub category : Option Text
  pub severity : Text
  pub title : Option Text
  pub message : Option Text
  pub source_ip : Option Text
  pub destination_ip : Option Text
  pub protocol : Option Text
  pub process_name : Option Text
  pub technique_id : Option Text
