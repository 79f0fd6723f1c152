-- ===== src/Baselines.antt =====
-- baselines/: snapshots of a machine's security state, their schedule and the monitor that takes them.
-- An instant is the number of its milliseconds, which is as fine as the canonical timestamps are.
pub mod Store
pub mod Snapshot
pub mod Diff
pub mod Monitor
pub mod Consistent
pub mod Runs
pub mod Scheduling
pub mod Retention
pub mod Order
pub mod Transitions
pub mod Quiet
pub use net_audit.Common.Attempt.{Attempt, done, failed}
use net_audit.Common.Int.{ℤ}
use net_audit.Common.Text.{Text}
use net_audit.Common.{all, ℕ, suc, ◌*◌, ap, Bool, true, false, Option, List, arith}

pub data Origin : Type 0 where
  manual scheduled : Origin

abbrev pub is_scheduled : Origin → Bool
is_scheduled manual = false
is_scheduled scheduled = true

pub record Check : Type 0 where
  pub check_id : Text
  pub status : Text

pub record Listener : Type 0 where
  pub port : ℕ
  pub process : Text

pub record Baseline : Type 0 where
  pub id : Text
  pub label : Text
  pub captured_at : ℕ
  pub checks : List Check
  pub peers : List Text
  pub listeners : List Listener
  pub posture_score : ℤ
  pub threats_score : Option ℤ
  pub overall_score : ℤ
  pub origin : Origin

pub record Schedule : Type 0 where
  pub enabled : Bool
  pub interval_hours : ℕ
  pub last_succeeded_at : Option ℕ
  pub last_error : Option Text

-- The two tables: the baselines in the order of their insertion, and the one row of the schedule.
pub record Tables : Type 0 where
  pub baselines : List Baseline
  pub schedule : Schedule

abbrev pub hour : ℕ
hour = 3600 * 1000
