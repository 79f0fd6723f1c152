-- ===== src/Alerts/Replies.antt =====
-- What a dispatch answers while alerts are held back.
use net_audit.Common.Attempt.{done}
use net_audit.Alerts.Store.{insert_history, item_taken, list_channels}
use net_audit.Common.Text.{Text}
use net_audit.Alerts.Service.{
  dispatch_channels, Outside, dispatch, Alert, is_eligible, recorded, is_quiet_now, quiet_row,
  is_limited, item_of,
}
use net_audit.Alerts.{Channel, suppressed, ChannelResult, rate_limited, Tables, HistoryItem}
use net_audit.Alerts.{ChannelStatus}
use net_audit.Common.{
  if◌then◌else◌, Bool-cases, ◌≡◌, refl, inl, inr, Bool, true, false, ◌||◌, some, List, [], ◌∷◌,
}

abbrev pub held_status : Bool → ChannelStatus
held_status true = suppressed
held_status false = rate_limited

-- One result for each enabled channel.
abbrev pub held_results : Bool → List Channel → List ChannelResult
held_results quiet [] = []
held_results quiet (c ∷ cs) =
    if c.enabled
    then record { channel_id = c.id; status = held_status quiet } ∷ held_results quiet cs
    else held_results quiet cs

held_channels-held_results :
    (w : Outside) (title : Text) (quiet limited : Bool) (cs : List Channel) (t : Tables)
    → (quiet || limited) ≡ true
    → dispatch_channels w title quiet limited cs t ≡ (held_results quiet cs, t)
unfolding dispatch_channels
held_channels-held_results w title quiet limited [] t h = refl
held_channels-held_results w title false false (c ∷ cs) t h = cc
held_channels-held_results w title true limited (c ∷ cs) t h =
    let rest = held_channels-held_results w title true limited cs t h in
    elim (Bool-cases c.enabled) [ inr off ↦ rw off rest | inl on ↦ rw (on, rest) refl ]
held_channels-held_results w title false true (c ∷ cs) t h =
    let rest = held_channels-held_results w title false true cs t h in
    elim (Bool-cases c.enabled) [ inr off ↦ rw off rest | inl on ↦ rw (on, rest) refl ]

recorded_free :
    (h : HistoryItem) (t : Tables)
    → item_taken h.item_id t.history ≡ false
    → recorded h t (insert_history h t) ≡ (done (some h), record t { history = h ∷ t.history })
unfolding insert_history
recorded_free h t free = rw free refl

-- An alert that is eligible, in the quiet hours or with the limit reached, is recorded: it has one
-- result for each enabled channel, in the order of their ids, all suppressed in the quiet hours and all
-- rate limited otherwise. Nothing is sent, and nothing changes but the history, which gets the entry, if
-- the id that is drawn for it is not taken.
dispatch-held_results :
    (w : Outside) (a : Alert) (t : Tables)
    → is_eligible a t.config ≡ true
    → (is_quiet_now w.local_now (quiet_row t.config.quiet_hours) || is_limited w t) ≡ true
    → item_taken w.fresh_id t.history ≡ false
    → dispatch w a t ≡ (
      done (
          some (
            item_of w a (
              held_results
                (is_quiet_now w.local_now (quiet_row t.config.quiet_hours))
                (list_channels t.channels)))),
      record t {
        history =
            item_of w a (
              held_results
                (is_quiet_now w.local_now (quiet_row t.config.quiet_hours))
                (list_channels t.channels))
            ∷ t.history;
      },
    )
unfolding dispatch
dispatch-held_results w a t eligible held free =
    let quiet : Bool = is_quiet_now w.local_now (quiet_row t.config.quiet_hours) in
    let results : List ChannelResult = held_results quiet (list_channels t.channels) in
    rw
      (
        eligible,
        held_channels-held_results w a.alert_title quiet (is_limited w t) (list_channels t.channels)
            t held,
      )
      (recorded_free (item_of w a results) t free)
