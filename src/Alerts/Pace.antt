-- ===== src/Alerts/Pace.antt =====
-- The rate limit holds over every sequence of dispatches.
use net_audit.Alerts.Service.{log_post}
use net_audit.Common.Int.{pos}
use net_audit.Common.Text.{Text}
use net_audit.Alerts.Store.{update_channel_status, insert_history, item_taken, list_channels}
use net_audit.Alerts.Service.{
  dispatch_channels, Outside, record_status, add_outcome, send_outcome, dispatch, Alert, recorded,
  is_quiet_now, quiet_row, is_limited, is_eligible, item_of,
}
use net_audit.Alerts.Store.{count_history_since}
use net_audit.Alerts.{HistoryItem, suppressed, hour, Tables, rate_limited, Channel}
use net_audit.Alerts.{ChannelResult}
use net_audit.Alerts.{ChannelStatus}
use net_audit.Common.{
  leb, if◌then◌else◌, Bool-cases, any, ℕ, ◌+◌, ◌-◌, ◌≤◌, ◌<◌, ◌≡◌, refl, ◌∙◌, ◌⊎◌, inl, inr, Bool,
  true, false, ◌&&◌, ◌||◌, Option, none, some, List, [], ◌∷◌, arith,
}

-- A send was attempted: the alert was neither suppressed nor rate limited.
abbrev pub is_attempt : ChannelStatus → Bool
is_attempt suppressed = false
is_attempt rate_limited = false
is_attempt _ = true

abbrev pub was_sent : List ChannelResult → Bool
was_sent results = any (λ r. is_attempt r.status) results

-- The alerts of a history that were sent from an instant on, for an hour.
abbrev pub sent_within : ℕ → List HistoryItem → ℕ
sent_within since [] = 0
sent_within since (h ∷ hs) =
    (if was_sent h.results && (leb since h.ts && leb h.ts (since + hour)) then 1 else 0)
    + sent_within since hs

-- An alert that was sent had fewer than `limit` entries in the hour before it.
abbrev Paced : ℕ → List HistoryItem → Type 0
Paced limit [] = Unit
Paced limit (h ∷ hs) =
    ((was_sent h.results ≡ false) ⊎ (count_history_since (h.ts - hour) hs < limit)) × Paced limit hs

sent_within-count :
    (since earlier : ℕ) (hs : List HistoryItem)
    → earlier ≤ since
    → sent_within since hs ≤ count_history_since earlier hs
unfolding count_history_since
sent_within-count since earlier [] h = omega arith
sent_within-count since earlier (i ∷ is) h = ground (arith, sent_within-count since earlier is)

Paced-sent_within :
    (limit since : ℕ) (hs : List HistoryItem) → Paced limit hs → sent_within since hs ≤ limit
Paced-sent_within limit since [] p = omega arith
Paced-sent_within limit since (h ∷ hs) p =
    let rest : sent_within since hs ≤ limit = Paced-sent_within limit since hs p.1 in
    elim p.0 [
      | inl unsent ↦ rw unsent (omega arith)
      | inr few ↦ ground (arith, sent_within-count since (h.ts - hour) hs)
    ]

-- While it is quiet or the limit is reached, nothing is sent, and no channel's status changes.
pub held_channels :
    (w : Outside) (title : Text) (quiet limited : Bool) (cs : List Channel) (t : Tables)
    → (quiet || limited) ≡ true
    → (was_sent (dispatch_channels w title quiet limited cs t).0 ≡ false)
      × ((dispatch_channels w title quiet limited cs t).1 ≡ t)
unfolding dispatch_channels
held_channels w title quiet limited [] t h = (refl, refl)
held_channels w title quiet limited (c ∷ cs) t h =
    let (unsent, same) = held_channels w title quiet limited cs t h in
    elim (Bool-cases c.enabled) [
      | inr off ↦ rw off (unsent, same)
      | inl on ↦ elim (Bool-cases quiet) [
        | inl q ↦ rw (on, q) (unsent, same)
        | inr q ↦ let l : limited ≡ true = ground arith in rw (on, q, l) (unsent, same)
      ]
    ]

-- The loop over the channels changes only their statuses.
record_status_keeps :
    (w : Outside) (channel_id : Text) (o : Option ChannelStatus) (t : Tables)
    → ((record_status w channel_id o t).history ≡ t.history)
      × ((record_status w channel_id o t).config ≡ t.config)
unfolding update_channel_status
record_status_keeps w channel_id none t = (refl, refl)
record_status_keeps w channel_id (some status) t = (refl, refl)

pub add_outcome_keeps :
    (channel_id : Text) (o : Option ChannelStatus) (r : List ChannelResult × Tables)
    → (add_outcome channel_id o r).1 ≡ r.1
add_outcome_keeps channel_id none r = refl
add_outcome_keeps channel_id (some status) r = refl

pub dispatch_channels_keeps :
    (w : Outside) (title : Text) (quiet limited : Bool) (cs : List Channel) (t : Tables)
    → ((dispatch_channels w title quiet limited cs t).1.history ≡ t.history)
      × ((dispatch_channels w title quiet limited cs t).1.config ≡ t.config)
unfolding dispatch_channels
dispatch_channels_keeps w title quiet limited [] t = (refl, refl)
dispatch_channels_keeps w title quiet limited (c ∷ cs) t =
    let o : Option ChannelStatus = send_outcome w title c in
    let t' : Tables = record_status w c.id o (log_post title c t) in
    let (same, fixed) = record_status_keeps w c.id o (log_post title c t) in
    let (later, settled) = dispatch_channels_keeps w title quiet limited cs t' in
    let skipped = dispatch_channels_keeps w title quiet limited cs t in
    elim (Bool-cases c.enabled) [
      | inr off ↦ rw off skipped
      | inl on ↦ elim (Bool-cases quiet) [
        | inl q ↦ rw (on, q) skipped
        | inr q ↦ elim (Bool-cases limited) [
          | inl l ↦ rw (on, q, l) skipped
          | inr l ↦
              rw
                (on, q, l, add_outcome_keeps c.id o (dispatch_channels w title quiet limited cs t'))
                (later ∙ same, settled ∙ fixed)
        ]
      ]
    ]

recorded-Paced :
    (limit : ℕ) (h : HistoryItem) (t : Tables)
    → (was_sent h.results ≡ false) ⊎ (count_history_since (h.ts - hour) t.history < limit)
    → Paced limit t.history
    → Paced limit (recorded h t (insert_history h t)).1.history
unfolding insert_history
recorded-Paced limit h t fits p = elim (Bool-cases (item_taken h.item_id t.history)) [
  | inl taken ↦ rw taken p
  | inr free ↦ rw free (fits, p)
]

dispatch-Paced :
    (limit : ℕ) (w : Outside) (a : Alert) (t : Tables)
    → 0 < limit
    → t.config.rate_limit_per_hour ≡ pos limit
    → Paced limit t.history
    → Paced limit (dispatch w a t).1.history
unfolding dispatch
dispatch-Paced limit w a t positive rate p =
    let quiet : Bool = is_quiet_now w.local_now (quiet_row t.config.quiet_hours) in
    let cs : List Channel = list_channels t.channels in
    let r : List ChannelResult × Tables =
      dispatch_channels w a.alert_title quiet (is_limited w t) cs t in
    let (same, _) = dispatch_channels_keeps w a.alert_title quiet (is_limited w t) cs t in
    let p' : Paced limit r.1.history = rw same p in
    elim (Bool-cases (is_eligible a t.config)) [
      | inr idle ↦ rw idle p
      | inl eligible ↦ rw eligible (elim (Bool-cases (is_limited w t)) [
        | inl limited ↦
            recorded-Paced limit (item_of w a r.0) r.1
              (inl (held_channels w a.alert_title quiet (is_limited w t) cs t (ground arith)).0) p'
        | inr free ↦ recorded-Paced limit (item_of w a r.0) r.1 (inr (rw same (ground arith))) p'
      ])
    ]

recorded_keeps :
    (h : HistoryItem) (t : Tables) → (recorded h t (insert_history h t)).1.config ≡ t.config
unfolding insert_history
recorded_keeps h t = ground arith

dispatch_keeps : (w : Outside) (a : Alert) (t : Tables) → (dispatch w a t).1.config ≡ t.config
unfolding dispatch
dispatch_keeps w a t =
    let quiet : Bool = is_quiet_now w.local_now (quiet_row t.config.quiet_hours) in
    let cs : List Channel = list_channels t.channels in
    let r : List ChannelResult × Tables =
      dispatch_channels w a.alert_title quiet (is_limited w t) cs t in
    elim (Bool-cases (is_eligible a t.config)) [
      | inr idle ↦ rw idle refl
      | inl eligible ↦ rw eligible (
          recorded_keeps (item_of w a r.0) r.1
          ∙ (dispatch_channels_keeps w a.alert_title quiet (is_limited w t) cs t).1)
    ]

-- A sequence of dispatches, each in its own surroundings.
abbrev pub dispatch_all : List (Outside × Alert) → Tables → Tables
dispatch_all [] t = t
dispatch_all ((w, a) ∷ calls) t = dispatch_all calls (dispatch w a t).1

dispatch_all-Paced :
    (limit : ℕ) (calls : List (Outside × Alert)) (t : Tables)
    → 0 < limit
    → t.config.rate_limit_per_hour ≡ pos limit
    → Paced limit t.history
    → Paced limit (dispatch_all calls t).history
dispatch_all-Paced limit [] t positive rate p = p
dispatch_all-Paced limit ((w, a) ∷ calls) t positive rate p =
    dispatch_all-Paced limit calls (dispatch w a t).1 positive (rw (dispatch_keeps w a t) rate)
      (dispatch-Paced limit w a t positive rate p)

-- With a positive limit, and from an empty history, every sequence of dispatches at any times leaves
-- at most as many alerts in any hour that were sent as the limit says. Alerts in one hour are those from
-- an instant on until an hour later, both included.
pub dispatch_all-sent_within :
    (limit since : ℕ) (calls : List (Outside × Alert)) (t : Tables)
    → 0 < limit
    → t.config.rate_limit_per_hour ≡ pos limit
    → t.history ≡ []
    → sent_within since (dispatch_all calls t).history ≤ limit
dispatch_all-sent_within limit since calls t positive rate empty =
    Paced-sent_within limit since (dispatch_all calls t).history
      (dispatch_all-Paced limit calls t positive rate (rw empty tt))
