-- ===== src/Export/Cef.antt =====
-- export/siem.py: `to_cef`.
use net_audit.Common.Text.{decimal}
use net_audit.Export.{Event}
use net_audit.Export.Escapes.{escape_cef_extension_value, or_empty, escape_cef_header_field}
use net_audit.Common.Text.{Text, text_eq, codes, join}
use net_audit.Common.{if◌then◌else◌, ℕ, Option, none, some, List, [], ◌∷◌, ◌++◌, map}

abbrev pub severity_to_cef : Text → ℕ
severity_to_cef severity =
    if text_eq severity (codes "critical")
    then 10
    else if text_eq severity (codes "high")
    then 8
    else if text_eq severity (codes "medium")
    then 5
    else if text_eq severity (codes "low")
    then 3
    else 1

-- if ev[…]: ext_pairs.append(…)
abbrev pub optional_pair : Text → Option Text → List (Text × Text)
optional_pair key none = []
optional_pair key (some []) = []
optional_pair key (some (c ∷ cs)) = (key, c ∷ cs) ∷ []

abbrev pub technique_pairs : Option Text → List (Text × Text)
technique_pairs none = []
technique_pairs (some []) = []
technique_pairs (some (c ∷ cs)) =
    (codes "cs1", c ∷ cs) ∷ (codes "cs1Label", codes "mitreTechniqueId") ∷ []

unfoldable pub cef_pair : Text × Text → Text
unfolding escape_cef_extension_value
cef_pair p = p.0 ++ (b'=' ∷ escape_cef_extension_value (some p.1))

unfoldable pub cef_header : Event → Text
unfolding join escape_cef_header_field
cef_header ev = join (codes "|") (
    codes "CEF:0"
    ∷ codes "NetAudit"
    ∷ codes "NetAudit"
    ∷ codes "1.0"
    ∷ escape_cef_header_field ev.category
    ∷ escape_cef_header_field ev.title
    ∷ decimal (severity_to_cef ev.severity)
    ∷ [])

-- `iso_z` formats an instant.
module _ (iso_z : ℕ → Text) where
  unfoldable pub ext_pairs : Event → List (Text × Text)
  ext_pairs ev =
      optional_pair (codes "src") ev.source_ip
      ++ (optional_pair (codes "dst") ev.destination_ip
          ++ (optional_pair (codes "proto") ev.protocol
              ++ (optional_pair (codes "dproc") ev.process_name
                  ++ (technique_pairs ev.technique_id
                      ++ ((codes "cat", or_empty ev.category)
                          ∷ (codes "rt", iso_z ev.ts_epoch)
                          ∷ optional_pair (codes "msg") ev.message)))))

  unfoldable pub cef_line : Event → Text
  unfolding cef_header ext_pairs join cef_pair
  cef_line ev = cef_header ev ++ (b'|' ∷ join (codes " ") (map cef_pair (ext_pairs ev)))

  -- The lines as they are sent, one behind the other.
  unfoldable pub to_cef : List Event → Text
  unfolding cef_line
  to_cef [] = []
  to_cef (ev ∷ evs) = cef_line ev ++ (10 ∷ to_cef evs)
