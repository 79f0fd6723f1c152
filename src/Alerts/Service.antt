-- ===== src/Alerts/Service.antt =====
-- alerts/service.py: configuration, test alerts, and the dispatch with its filters.
use net_audit.Alerts.{Post}
use net_audit.Common.Int.{pos}
use net_audit.Common.Attempt.{Attempt, failed, done}
use net_audit.Pcap.Bpf.{is_space}
use net_audit.Alerts.{
  desktop, webhook, slack, Channel, is_remote, failed_send, suppressed, severity_order, delivered,
  rate_limited, hour,
}
use net_audit.Alerts.Store.{insert_history, count_history_since, get_channel, list_channels}
use net_audit.Alerts.{desktop, webhook, slack, Tables}
use net_audit.Alerts.{desktop, webhook, slack, ChannelResult}
use net_audit.Alerts.{desktop, webhook, slack, Severity}
use net_audit.Alerts.{desktop, webhook, slack, HistoryItem}
use net_audit.Alerts.Store.{update_channel_status}
use net_audit.Common.Int.{ℤ, negsuc}
use net_audit.Alerts.{desktop, webhook, slack, ChannelKind}
use net_audit.Alerts.{desktop, webhook, slack, ChannelStatus}
use net_audit.Alerts.{desktop, webhook, slack, Config}
use net_audit.Alerts.{desktop, webhook, slack, QuietHours}
use net_audit.Common.Text.{Text, text_eq, codes, text_ltb}
use net_audit.Common.{
  ltb, leb, if◌then◌else◌, all, any, ℕ, ◌-◌, Bool, true, false, not, ◌&&◌, ◌||◌, Option, none, some,
  List, [], ◌∷◌, ◌++◌,
}

abbrev pub is_blank : Option Text → Bool
is_blank none = true
is_blank (some url) = all is_space url

abbrev pub seen_before : Text → List Text → Bool
seen_before channel_id ids = any (text_eq channel_id) ids

-- `validate_and_resolve`, which `validate` stands for, gives the message of a rejection.
abbrev pub rejection : (Text → Option Text) → Option Text → Option Text
rejection validate none = none
rejection validate (some url) = validate url

-- The check of one channel: none if it passes, otherwise the code and the message.
unfoldable pub channel_error : (Text → Option Text) → Channel → Option Text
channel_error validate c =
    if not (is_remote c.kind)
    then none
    else if not c.enabled
    then none
    else if is_blank c.url
    then some (codes "missing_url")
    else rejection validate c.url

abbrev pub or_next : Option Text → Option Text → Option Text
or_next (some error) rest = some error
or_next none rest = rest

-- The first error, from left to right.
unfoldable pub validate_channels : (Text → Option Text) → List Text → List Channel → Option Text
unfolding channel_error
validate_channels validate seen_ids [] = none
validate_channels validate seen_ids (c ∷ cs) =
    let rest : Option Text = validate_channels validate (c.id ∷ seen_ids) cs in
    if seen_before c.id seen_ids
    then some (codes "duplicate_channel")
    else or_next (channel_error validate c) rest

-- An empty start or end is stored, and reads as no quiet hours.
abbrev pub quiet_of : Text → Text → QuietHours → Option QuietHours
quiet_of [] end q = none
quiet_of (c ∷ start) [] q = none
quiet_of (c ∷ start) (d ∷ end) q = some q

abbrev pub quiet_row : Option QuietHours → Option QuietHours
quiet_row none = none
quiet_row (some q) = quiet_of q.start q.end q

abbrev pub config_of : Config → Config
config_of config = record config { quiet_hours = quiet_row config.quiet_hours }

abbrev pub saved : Option Text → Config → List Channel → Tables → Attempt Tables
saved (some error) config channels t = failed error
saved none config channels t = done (record t { config = config; channels = channels })

unfoldable pub update_config :
    (Text → Option Text) → Config → List Channel → Tables → Attempt Tables
unfolding validate_channels
update_config validate config channels t =
    saved (validate_channels validate [] channels) config channels t

-- `local_now` is the local time as "HH:MM".
abbrev pub within_hours : Text → QuietHours → Bool
within_hours local_now q =
    if not (text_ltb q.end q.start)
    then not (text_ltb local_now q.start) && text_ltb local_now q.end
    else not (text_ltb local_now q.start) || text_ltb local_now q.end

unfoldable pub is_quiet_now : Text → Option QuietHours → Bool
is_quiet_now local_now none = false
is_quiet_now local_now (some q) = within_hours local_now q

-- The outbound side: what a desktop notification and a POST to a channel's address come to. A rejected
-- send is an exception, with its message.
pub data Delivery : Type 0 where
  rejected : Text → Delivery
  sent : Bool → Delivery

pub record Outside : Type 0 where
  pub now : ℕ
  pub local_now : Text
  pub fresh_id : Text
  pub notify : Text → ChannelStatus
  pub send : ChannelKind → Text → Delivery

abbrev pub status_of : Delivery → ChannelStatus
status_of (rejected message) = failed_send
status_of (sent true) = delivered
status_of (sent false) = failed_send

unfoldable pub send_remote_channel : Outside → ChannelKind → Text → ChannelStatus
send_remote_channel w kind url = status_of (w.send kind url)

abbrev pub limit_reached : ℤ → ℕ → Bool
limit_reached (pos limit) recent = ltb 0 limit && leb limit recent
limit_reached (negsuc n) recent = false

abbrev pub with_result :
    Text → ChannelStatus → List ChannelResult × Tables → List ChannelResult × Tables
with_result channel_id status (results, t) =
    (record { channel_id = channel_id; status = status } ∷ results, t)

-- An address that is there and not empty.
abbrev pub url_of : Option Text → Option Text
url_of none = none
url_of (some []) = none
url_of (some (c ∷ url)) = some (c ∷ url)

-- What becomes of one channel: `none` for a channel that is passed over.
abbrev pub remote_outcome : Outside → ChannelKind → Option Text → Option ChannelStatus
remote_outcome w kind none = none
remote_outcome w kind (some url) = some (send_remote_channel w kind url)

abbrev pub send_outcome : Outside → Text → Channel → Option ChannelStatus
send_outcome w title c = elim c.kind [
  | desktop ↦ some (w.notify title)
  | webhook ↦ remote_outcome w webhook (url_of c.url)
  | slack ↦ remote_outcome w slack (url_of c.url)
]

-- The call of a sender that goes with it.
abbrev pub post_of : Text → Channel → List Post
post_of title c = elim c.kind [
  | desktop ↦ (desktop, title) ∷ []
  | webhook ↦ elim (url_of c.url) [ none ↦ [] | some url ↦ (webhook, url) ∷ [] ]
  | slack ↦ elim (url_of c.url) [ none ↦ [] | some url ↦ (slack, url) ∷ [] ]
]

abbrev pub log_post : Text → Channel → Tables → Tables
log_post title c t = record t { posted = t.posted ++ post_of title c }

abbrev pub record_status : Outside → Text → Option ChannelStatus → Tables → Tables
record_status w channel_id none t = t
record_status w channel_id (some status) t = update_channel_status channel_id status w.now t

abbrev pub add_outcome :
    Text → Option ChannelStatus → List ChannelResult × Tables → List ChannelResult × Tables
add_outcome channel_id none later = later
add_outcome channel_id (some status) later = with_result channel_id status later

-- The loop over the channels of the configuration.
unfoldable pub dispatch_channels :
    Outside → Text → Bool → Bool → List Channel → Tables → List ChannelResult × Tables
unfolding update_channel_status send_remote_channel
dispatch_channels w title quiet limited [] t = ([], t)
dispatch_channels w title quiet limited (c ∷ cs) t =
    let skipped : List ChannelResult × Tables = dispatch_channels w title quiet limited cs t in
    let outcome : Option ChannelStatus = send_outcome w title c in
    let later : List ChannelResult × Tables =
      dispatch_channels w title quiet limited cs
        (record_status w c.id outcome (log_post title c t)) in
    if not c.enabled
    then skipped
    else if quiet
    then with_result c.id suppressed skipped
    else if limited
    then with_result c.id rate_limited skipped
    else add_outcome c.id outcome later

abbrev pub recorded : HistoryItem → Tables → Attempt Tables → Attempt (Option HistoryItem) × Tables
recorded h t (failed error) = (failed error, t)
recorded h t (done t') = (done (some h), t')

pub record Alert : Type 0 where
  pub alert_severity : Severity
  pub alert_source : Text
  pub alert_source_id : Text
  pub alert_title : Text

abbrev pub item_of : Outside → Alert → List ChannelResult → HistoryItem
item_of w a results = record {
  item_id = w.fresh_id;
  ts = w.now;
  severity = a.alert_severity;
  source = a.alert_source;
  source_id = a.alert_source_id;
  title = a.alert_title;
  results = results;
}

abbrev pub record_item :
    Outside → Alert → List ChannelResult × Tables → Attempt (Option HistoryItem) × Tables
record_item w a (results, t) =
    let h : HistoryItem = item_of w a results in recorded h t (insert_history h t)

-- The number of alerts of the last hour has reached the limit.
abbrev pub is_limited : Outside → Tables → Bool
is_limited w t =
    limit_reached t.config.rate_limit_per_hour (count_history_since (w.now - hour) t.history)

abbrev pub is_eligible : Alert → Config → Bool
is_eligible a config =
    config.active && leb (severity_order config.min_severity) (severity_order a.alert_severity)

unfoldable pub dispatch : Outside → Alert → Tables → Attempt (Option HistoryItem) × Tables
unfolding dispatch_channels insert_history
dispatch w a t =
    if not (is_eligible a t.config)
    then (done none, t)
    else record_item w a (
        dispatch_channels w a.alert_title
          (is_quiet_now w.local_now (quiet_row t.config.quiet_hours)) (is_limited w t)
          (list_channels t.channels) t)

pub record TestResult : Type 0 where
  pub tested_id : Text
  pub test_status : ChannelStatus
  pub attempted_at : ℕ

abbrev pub test_title : Text
test_title = codes "NetAudit test alert"

abbrev pub test_status_of : Outside → Channel → ChannelStatus
test_status_of w c = elim c.kind [
  | desktop ↦ w.notify test_title
  | webhook ↦ elim (url_of c.url) [ none ↦ failed_send | some url ↦ status_of (w.send webhook url) ]
  | slack ↦ elim (url_of c.url) [ none ↦ failed_send | some url ↦ status_of (w.send slack url) ]
]

abbrev pub test_found : Outside → Text → Option Channel → Tables → TestResult × Tables
test_found w channel_id none t =
    (record { tested_id = channel_id; test_status = failed_send; attempted_at = w.now }, t)
test_found w channel_id (some c) t =
    let status : ChannelStatus = test_status_of w c in
    (
      record { tested_id = channel_id; test_status = status; attempted_at = w.now },
      update_channel_status channel_id status w.now (log_post test_title c t),
    )

unfoldable pub test_channel : Outside → Text → Tables → TestResult × Tables
unfolding update_channel_status get_channel
test_channel w channel_id t = test_found w channel_id (get_channel channel_id t.channels) t
