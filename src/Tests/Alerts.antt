-- ===== src/Tests/Alerts.antt =====
-- Runs of the alert service, and its theorems at concrete states.
use net_audit.Alerts.Store.{list_channels}
use net_audit.Common.Int.{pos}
use net_audit.Pcap.Bpf.{is_space}
use net_audit.Alerts.Validity.{
  Event, dispatched, IsSafe, configured, run_all, tested, run_all-AreSafe,
}
use net_audit.Alerts.Service.{is_quiet_now, sent}
use net_audit.Alerts.Service.{dispatch}
use net_audit.Alerts.Pace.{sent_within, dispatch_all, dispatch_all-sent_within}
use net_audit.Alerts.Service.{Outside}
use net_audit.Alerts.Service.{Alert}
use net_audit.Alerts.{Tables, high, delivered, critical, webhook, desktop}
use net_audit.Alerts.{Channel}
use net_audit.Common.Text.{Text, codes, text_ltb, text_eq}
use net_audit.Common.{
  ltb, if◌then◌else◌, take, All, all, ℕ, ◌+◌, ◌-◌, ◌/◌, ◌≤◌, min, ◌≡◌, refl, ap, inl, inr, true,
  not, Option, none, some, List, [], ◌∷◌, arith,
}

-- Nothing but https is accepted.
abbrev only_https : Text → Option Text
only_https url = if text_eq (take 6 url) (codes "https:") then none else some (codes "bad_scheme")

abbrev hook : Channel
hook = record {
  id = codes "hook";
  kind = webhook;
  enabled = true;
  url = some (codes "https://example.org/hook");
  template = none;
  last_status = none;
  last_attempt = none;
}

abbrev screen : Channel
screen = record hook { id = codes "desktop"; kind = desktop; url = none }

-- One alert in an hour, none at night.
abbrev one_an_hour : Tables
one_an_hour = record {
  config = record {
    active = true;
    min_severity = high;
    rate_limit_per_hour = pos 1;
    quiet_hours = some (record { start = codes "23:00"; end = codes "07:00" });
  };
  channels = hook ∷ screen ∷ [];
  history = [];
  posted = [];
}

abbrev at_time : ℕ → Text → Text → Outside
at_time now local_now fresh_id = record {
  now = now;
  local_now = local_now;
  fresh_id = fresh_id;
  notify = λ title. delivered;
  send = λ kind url. sent true;
}

abbrev new_listener : Alert
new_listener = record {
  alert_severity = critical;
  alert_source = codes "threat";
  alert_source_id = codes "t1";
  alert_title = codes "new listener";
}

abbrev two_calls : List (Outside × Alert)
two_calls =
    (at_time 9000000 (codes "12:00") (codes "al_1"), new_listener)
    ∷ (at_time 9000001 (codes "12:00") (codes "al_2"), new_listener)
    ∷ []

dispatch_all-sent_within_example :
    sent_within 8000000 (dispatch_all two_calls one_an_hour).history ≤ 1
dispatch_all-sent_within_example =
    dispatch_all-sent_within 1 8000000 two_calls one_an_hour (omega arith) refl refl

-- The first of the two calls is sent.
two_calls_sent : sent_within 8000000 (dispatch_all two_calls one_an_hour).history ≡ 1
unfolding dispatch list_channels text_ltb is_quiet_now net_audit.Alerts.Store.count_history_since
    net_audit.Common.Text.text_eq
two_calls_sent = refl

-- A notification and a POST by day, nothing by night.
posted_at_noon :
    (dispatch (at_time 9000000 (codes "12:00") (codes "al_1")) new_listener one_an_hour).1.posted
    ≡ (desktop, codes "new listener") ∷ (webhook, codes "https://example.org/hook") ∷ []
unfolding dispatch list_channels text_ltb is_quiet_now net_audit.Alerts.Store.count_history_since
    net_audit.Common.Text.text_eq
posted_at_noon = refl

posted_at_night :
    (dispatch (at_time 9000000 (codes "23:30") (codes "al_1")) new_listener one_an_hour).1.posted
    ≡ []
unfolding dispatch list_channels text_ltb is_quiet_now net_audit.Alerts.Store.count_history_since
    net_audit.Common.Text.text_eq
posted_at_night = refl

abbrev history : List (Event only_https)
history =
    dispatched (at_time 9000000 (codes "12:00") (codes "al_1")) new_listener
    ∷ configured one_an_hour.config (hook ∷ hook ∷ [])
    ∷ tested (at_time 9000009 (codes "12:00") (codes "al_2")) (codes "hook")
    ∷ []

run_all-AreSafe_example : All (IsSafe only_https) (run_all only_https one_an_hour history).channels
unfolding is_space net_audit.Common.Text.text_eq
run_all-AreSafe_example =
    run_all-AreSafe only_https one_an_hour history
      (inr (codes "https://example.org/hook", refl, refl, refl), (inl refl, tt))
