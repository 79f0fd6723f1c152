-- ===== src/Alerts/Validity.antt =====
-- Every enabled remote channel has an address that was validated.
use net_audit.Alerts.Service.{log_post}
use net_audit.Alerts.Pace.{add_outcome_keeps}
use net_audit.Common.Attempt.{Attempt, done, failed}
use net_audit.Alerts.Store.{insert_history, get_channel, item_taken, list_channels}
use net_audit.Alerts.Store.{update_channel_status}
use net_audit.Alerts.Store.{set_status}
use net_audit.Pcap.Bpf.{is_space}
use net_audit.Alerts.Service.{
  validate_channels, seen_before, dispatch_channels, dispatch, test_channel, Outside, update_config,
  Alert, record_status, send_outcome, recorded, is_quiet_now, test_status_of, quiet_row, is_limited,
  is_eligible, item_of,
}
use net_audit.Alerts.Service.{channel_error}
use net_audit.Alerts.{Channel, is_remote, Tables, ChannelStatus, HistoryItem, Config, ChannelResult}
use net_audit.Common.Text.{Text, text_eq}
use net_audit.Common.{
  Bool-cases, some-cases, All, all, ◌≡◌, ◌⊎◌, inl, inr, false, ◌&&◌, Option, none, some, List, [],
  ◌∷◌, arith, Bool, ℕ,
}

module _ (validate : Text → Option Text) where
  -- A channel that is not used for sending, or one with an address that is not blank and passes.
  abbrev pub IsSafe : Channel → Type 0
  IsSafe c =
      ((is_remote c.kind && c.enabled) ≡ false)
      ⊎ ((url : Text) × (c.url ≡ some url) × (all is_space url ≡ false) × (validate url ≡ none))

  -- Ids are distinct, also from those seen before.
  abbrev pub AreDistinct : List Text → List Channel → Type 0
  AreDistinct ids [] = Unit
  AreDistinct ids (c ∷ cs) = (seen_before c.id ids ≡ false) × AreDistinct (c.id ∷ ids) cs

  channel_error-IsSafe : (c : Channel) → channel_error validate c ≡ none → IsSafe c
  unfolding channel_error
  channel_error-IsSafe c h = elim (some-cases c.url) [
    | inl missing ↦ inl (ground arith)
    | inr (url, given) ↦ elim (Bool-cases (is_remote c.kind && c.enabled)) [
      | inr idle ↦ inl idle
      | inl used ↦ inr (url, given, ground arith, ground arith)
    ]
  ]

  validate_channels-AreSafe :
      (ids : List Text) (cs : List Channel)
      → validate_channels validate ids cs ≡ none
      → AreDistinct ids cs × All IsSafe cs
  unfolding validate_channels
  validate_channels-AreSafe ids [] h = (tt, tt)
  validate_channels-AreSafe ids (c ∷ cs) h = elim (Bool-cases (seen_before c.id ids)) [
    | inl seen ↦ absurd (ground arith)
    | inr new ↦ elim (some-cases (channel_error validate c)) [
      | inr (error, wrong) ↦ absurd (ground arith)
      | inl right ↦
          let (distinct, safe) = validate_channels-AreSafe (c.id ∷ ids) cs (ground arith) in
          ((new, distinct), (channel_error-IsSafe c right, safe))
    ]
  ]

  set_status-AreSafe :
      (channel_id : Text) (status : ChannelStatus) (now : ℕ) (cs : List Channel)
      → All IsSafe cs
      → All IsSafe (set_status channel_id status now cs)
  unfolding set_status
  set_status-AreSafe channel_id status now [] h = tt
  set_status-AreSafe channel_id status now (c ∷ cs) h =
      let rest = set_status-AreSafe channel_id status now cs h.1 in
      elim (Bool-cases (text_eq c.id channel_id)) [
        | inl same ↦ rw same (h.0, rest)
        | inr other ↦ rw other (h.0, rest)
      ]

  record_status-AreSafe :
      (w : Outside) (channel_id : Text) (o : Option ChannelStatus) (t : Tables)
      → All IsSafe t.channels
      → All IsSafe (record_status w channel_id o t).channels
  unfolding update_channel_status
  record_status-AreSafe w channel_id none t h = h
  record_status-AreSafe w channel_id (some status) t h =
      set_status-AreSafe channel_id status w.now t.channels h

  dispatch_channels-AreSafe :
      (w : Outside) (title : Text) (quiet limited : Bool) (cs : List Channel) (t : Tables)
      → All IsSafe t.channels
      → All IsSafe (dispatch_channels w title quiet limited cs t).1.channels
  unfolding dispatch_channels
  dispatch_channels-AreSafe w title quiet limited [] t h = h
  dispatch_channels-AreSafe w title quiet limited (c ∷ cs) t h =
      let o : Option ChannelStatus = send_outcome w title c in
      let t' : Tables = record_status w c.id o (log_post title c t) in
      let skipped = dispatch_channels-AreSafe w title quiet limited cs t h in
      elim (Bool-cases c.enabled) [
        | inr off ↦ rw off skipped
        | inl on ↦ elim (Bool-cases quiet) [
          | inl q ↦ rw (on, q) skipped
          | inr q ↦ elim (Bool-cases limited) [
            | inl l ↦ rw (on, q, l) skipped
            | inr l ↦
                rw
                  (
                    on,
                    q,
                    l,
                    add_outcome_keeps c.id o (dispatch_channels w title quiet limited cs t'),
                  )
                  (dispatch_channels-AreSafe w title quiet limited cs t'
                    (record_status-AreSafe w c.id o (log_post title c t) h))
          ]
        ]
      ]

  recorded-AreSafe :
      (h : HistoryItem) (t : Tables)
      → All IsSafe t.channels
      → All IsSafe (recorded h t (insert_history h t)).1.channels
  unfolding insert_history
  recorded-AreSafe h t safe = elim (Bool-cases (item_taken h.item_id t.history)) [
    | inl taken ↦ rw taken safe
    | inr free ↦ rw free safe
  ]

  dispatch-AreSafe :
      (w : Outside) (a : Alert) (t : Tables)
      → All IsSafe t.channels
      → All IsSafe (dispatch w a t).1.channels
  unfolding dispatch
  dispatch-AreSafe w a t h =
      let quiet : Bool = is_quiet_now w.local_now (quiet_row t.config.quiet_hours) in
      let cs : List Channel = list_channels t.channels in
      let r : List ChannelResult × Tables =
        dispatch_channels w a.alert_title quiet (is_limited w t) cs t in
      elim (Bool-cases (is_eligible a t.config)) [
        | inr idle ↦ rw idle h
        | inl eligible ↦ rw eligible (
            recorded-AreSafe (item_of w a r.0) r.1
              (dispatch_channels-AreSafe w a.alert_title quiet (is_limited w t) cs t h))
      ]

  test_channel-AreSafe :
      (w : Outside) (channel_id : Text) (t : Tables)
      → All IsSafe t.channels
      → All IsSafe (test_channel w channel_id t).1.channels
  unfolding test_channel update_channel_status
  test_channel-AreSafe w channel_id t h = elim (some-cases (get_channel channel_id t.channels)) [
    | inl e ↦ rw e h
    | inr (c, e) ↦ rw e (set_status-AreSafe channel_id (test_status_of w c) w.now t.channels h)
  ]

  -- What happens to the tables; a configuration that is refused changes nothing.
  pub data Event : Type 0 where
    dispatched : Outside → Alert → Event
    tested : Outside → Text → Event
    configured : Config → List Channel → Event

  abbrev pub or_same : Tables → Attempt Tables → Tables
  or_same t (done t') = t'
  or_same t (failed error) = t

  abbrev pub step : Tables → Event → Tables
  step t (dispatched w a) = (dispatch w a t).1
  step t (tested w channel_id) = (test_channel w channel_id t).1
  step t (configured config channels) = or_same t (update_config validate config channels t)

  abbrev pub run_all : Tables → List Event → Tables
  run_all t [] = t
  run_all t (e ∷ es) = run_all (step t e) es

  step-AreSafe : (t : Tables) (e : Event) → All IsSafe t.channels → All IsSafe (step t e).channels
  unfolding update_config
  step-AreSafe t (dispatched w a) h = dispatch-AreSafe w a t h
  step-AreSafe t (tested w channel_id) h = test_channel-AreSafe w channel_id t h
  step-AreSafe t (configured config channels) h =
      elim (some-cases (validate_channels validate [] channels)) [
        | inl right ↦ rw right (validate_channels-AreSafe [] channels right).1
        | inr (error, wrong) ↦ rw wrong h
      ]

  -- From channels that are safe, every sequence of dispatches, tests and changes of the configuration
  -- leads to channels that are safe: each webhook or Slack channel that is enabled has an address that
  -- is not blank and that `validate_and_resolve` accepted.
  pub run_all-AreSafe :
      (t : Tables) (es : List Event) → All IsSafe t.channels → All IsSafe (run_all t es).channels
  run_all-AreSafe t [] h = h
  run_all-AreSafe t (e ∷ es) h = run_all-AreSafe (step t e) es (step-AreSafe t e h)
