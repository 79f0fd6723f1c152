-- ===== src/Tests/Export.antt =====
-- CEF lines of hostile values.
use net_audit.Export.RoundTrip.{read_stream-to_cef}
use net_audit.Export.Line.{record_of}
use net_audit.Export.Cef.{to_cef}
use net_audit.Export.Escapes.{
  escape_cef_extension_value, escape_value, escape_each, replace_char, replace_newlines,
  replace_crlf, replace_crlf_from,
}
use net_audit.Export.Reader.{read_stream}
use net_audit.Export.{Event}
use net_audit.Common.Text.{Text, decimal, codes}
use net_audit.Common.{ℕ, ◌≡◌, refl, none, some, [], ◌∷◌, ◌++◌, map}

abbrev sample_iso : ℕ → Text
sample_iso ts = decimal ts

-- A title with a bar, a backslash and a line end, and a message that tries to add a pair.
abbrev hostile : Event
hostile = record {
  ts_epoch = 5;
  category = some (codes "a|b");
  severity = codes "high";
  title = some (codes "x\\y" ++ (13 ∷ 10 ∷ codes "CEF:0|z"));
  message = some (codes "m src=1.2.3.4");
  source_ip = some (codes "10.0.0.1");
  destination_ip = none;
  protocol = some [];
  process_name = none;
  technique_id = none;
}

read_stream-to_cef_example :
    read_stream (to_cef sample_iso (hostile ∷ hostile ∷ []))
    ≡ map (record_of sample_iso) (hostile ∷ hostile ∷ [])
read_stream-to_cef_example = read_stream-to_cef sample_iso (hostile ∷ hostile ∷ [])

message_escaped : escape_cef_extension_value hostile.message ≡ codes "m src\\=1.2.3.4"
unfolding escape_cef_extension_value escape_value escape_each replace_char replace_newlines
    replace_crlf replace_crlf_from
message_escaped = refl
