-- ===== src/Alerts/Outbound.antt =====
-- alerts/service.py: which senders a dispatch calls.
use net_audit.Alerts.Enrichment.Responses.{is_empty}
use net_audit.Alerts.Service.{Alert, is_eligible, is_quiet_now, quiet_row, is_limited}
use net_audit.Alerts.{Channel, Post, Tables, is_remote}
use net_audit.Alerts.Service.{Outside}
use net_audit.Common.Text.{Text}
use net_audit.Common.{if◌then◌else◌, Bool, not, ◌&&◌, none, some, List, [], ◌∷◌, ◌++◌}

-- What an enabled channel is to get: the alert's title on the screen, or a POST to its address if it has
-- one that is not empty.
abbrev pub due_post : Text → Channel → List Post
due_post title c =
    if is_remote c.kind
    then elim c.url [ none ↦ [] | some url ↦ if is_empty url then [] else (c.kind, url) ∷ [] ]
    else (c.kind, title) ∷ []

abbrev pub outbound : Text → List Channel → List Post
outbound title [] = []
outbound title (c ∷ cs) =
    if c.enabled then due_post title c ++ outbound title cs else outbound title cs

abbrev pub goes_out : Outside → Alert → Tables → Bool
goes_out w a t =
    is_eligible a t.config
    && (not (is_quiet_now w.local_now (quiet_row t.config.quiet_hours)) && not (is_limited w t))
