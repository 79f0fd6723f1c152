-- ===== src/Alerts.antt =====
-- alerts/: channels, configuration, history, and the dispatch of alerts. An instant is the number of its
-- milliseconds.
pub mod Store
pub mod Service
pub mod Pace
pub mod Validity
pub mod Replies
pub mod Outbound
pub mod Webhook
pub mod Addresses
pub mod Guarded
pub mod Enrichment
use net_audit.Common.Int.{ℤ}
use net_audit.Common.Text.{Text}
use net_audit.Common.{ℕ, ◌*◌, min, Bool, true, false, Option, List, arith}

-- `SEVERITY_ORDER`, and the five severities of models.py.
pub data Severity : Type 0 where
  info low medium high critical : Severity

abbrev pub severity_order : Severity → ℕ
severity_order info = 0
severity_order low = 1
severity_order medium = 2
severity_order high = 3
severity_order critical = 4

pub data ChannelKind : Type 0 where
  desktop webhook slack : ChannelKind

abbrev pub is_remote : ChannelKind → Bool
is_remote desktop = false
is_remote _ = true

pub data ChannelStatus : Type 0 where
  delivered failed_send unavailable rate_limited suppressed : ChannelStatus

pub record Channel : Type 0 where
  pub id : Text
  pub kind : ChannelKind
  pub enabled : Bool
  pub url : Option Text
  pub template : Option Text
  pub last_status : Option ChannelStatus
  pub last_attempt : Option ℕ

-- The start and the end of the quiet hours, as "HH:MM".
pub record QuietHours : Type 0 where
  pub start : Text
  pub end : Text

pub record Config : Type 0 where
  pub active : Bool
  pub min_severity : Severity
  pub rate_limit_per_hour : ℤ
  pub quiet_hours : Option QuietHours

pub record ChannelResult : Type 0 where
  pub channel_id : Text
  pub status : ChannelStatus

pub record HistoryItem : Type 0 where
  pub item_id : Text
  pub ts : ℕ
  pub severity : Severity
  pub source : Text
  pub source_id : Text
  pub title : Text
  pub results : List ChannelResult

-- The tables: the row of the configuration, the channels, and the history with the latest entry first.
-- What a sender was called with: the text of a notification, or the address of a POST.
abbrev pub Post : Type 0
Post = ChannelKind × Text

-- The tables, and a log of the calls of the senders, the latest last.
pub record Tables : Type 0 where
  pub config : Config
  pub channels : List Channel
  pub history : List HistoryItem
  pub posted : List Post

abbrev pub hour : ℕ
hour = 3600 * 1000
