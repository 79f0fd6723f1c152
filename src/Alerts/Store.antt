-- ===== src/Alerts/Store.antt =====
-- alerts/store.py: the tables of the alerts.
use net_audit.Common.Attempt.{Attempt, failed, done}
use net_audit.Alerts.{HistoryItem, ChannelStatus, Tables}
use net_audit.Common.Text.{Text, text_ltb, text_eq, codes}
use net_audit.Alerts.{Channel}
use net_audit.Common.{
  ltb, leb, if◌then◌else◌, take, any, ℕ, ◌+◌, Bool, Option, none, some, List, [], ◌∷◌,
}

-- ORDER BY id
unfoldable pub insert_channel : Channel → List Channel → List Channel
insert_channel c [] = c ∷ []
insert_channel c (d ∷ ds) =
    let rest : List Channel = insert_channel c ds in
    if text_ltb d.id c.id then d ∷ rest else c ∷ d ∷ ds

unfoldable pub list_channels : List Channel → List Channel
unfolding insert_channel
list_channels [] = []
list_channels (c ∷ cs) = insert_channel c (list_channels cs)

unfoldable pub get_channel : Text → List Channel → Option Channel
get_channel channel_id [] = none
get_channel channel_id (c ∷ cs) =
    if text_eq c.id channel_id then some c else get_channel channel_id cs

unfoldable pub set_status : Text → ChannelStatus → ℕ → List Channel → List Channel
set_status channel_id status now [] = []
set_status channel_id status now (c ∷ cs) =
    let rest : List Channel = set_status channel_id status now cs in
    if text_eq c.id channel_id
    then record c { last_status = some status; last_attempt = some now } ∷ rest
    else c ∷ rest

unfoldable pub update_channel_status : Text → ChannelStatus → ℕ → Tables → Tables
unfolding set_status
update_channel_status channel_id status now t = record t {
  channels = set_status channel_id status now t.channels;
}

unfoldable pub count_history_since : ℕ → List HistoryItem → ℕ
count_history_since since [] = 0
count_history_since since (h ∷ hs) =
    (if leb since h.ts then 1 else 0) + count_history_since since hs

-- ORDER BY ts DESC
unfoldable pub insert_item : HistoryItem → List HistoryItem → List HistoryItem
insert_item h [] = h ∷ []
insert_item h (i ∷ is) =
    let rest : List HistoryItem = insert_item h is in if ltb h.ts i.ts then i ∷ rest else h ∷ i ∷ is

unfoldable pub sort_history : List HistoryItem → List HistoryItem
unfolding insert_item
sort_history [] = []
sort_history (h ∷ hs) = insert_item h (sort_history hs)

unfoldable pub list_history : ℕ → List HistoryItem → List HistoryItem
unfolding sort_history
list_history limit hs = take limit (sort_history hs)

abbrev pub item_taken : Text → List HistoryItem → Bool
item_taken entry_id hs = any (λ h. text_eq h.item_id entry_id) hs

-- The primary key of the history.
unfoldable pub insert_history : HistoryItem → Tables → Attempt Tables
insert_history h t =
    if item_taken h.item_id t.history
    then failed (codes "UNIQUE constraint failed: alerts_history.id")
    else done (record t { history = h ∷ t.history })
