-- ===== src/Export/Escapes.antt =====
-- export/siem.py: the escapes of values, as the chains of `str.replace` that they are.
use net_audit.Common.Text.{Text}
use net_audit.Common.{
  ◌==◌, if◌then◌else◌, ℕ, Bool, true, false, ◌&&◌, Option, none, some, List, [], ◌∷◌, ◌++◌,
}

-- s.replace(c, by), for one character
unfoldable pub replace_char : ℕ → Text → Text → Text
replace_char c by [] = []
replace_char c by (x ∷ xs) = (if x == c then by else x ∷ []) ++ replace_char c by xs

abbrev pub starts_with : ℕ → Text → Bool
starts_with c [] = false
starts_with c (x ∷ xs) = x == c

-- s.replace("\r\n", by): the line feed behind a carriage return is passed over.
unfoldable pub replace_crlf_from : Bool → Text → Text → Text
replace_crlf_from is_passed by [] = []
replace_crlf_from true by (x ∷ xs) = replace_crlf_from false by xs
replace_crlf_from false by (x ∷ xs) = elim (x == 13 && starts_with 10 xs) [
  | true ↦ by ++ replace_crlf_from true by xs
  | false ↦ x ∷ replace_crlf_from false by xs
]

unfoldable pub replace_crlf : Text → Text → Text
unfolding replace_crlf_from
replace_crlf by s = replace_crlf_from false by s

-- .replace("\r\n", by).replace("\n", by).replace("\r", by)
unfoldable pub replace_newlines : Text → Text → Text
unfolding replace_char replace_crlf
replace_newlines by s = replace_char 13 by (replace_char 10 by (replace_crlf by s))

-- A character behind a backslash.
abbrev pub escaped : ℕ → Text
escaped c = b'\\' ∷ c ∷ []

unfoldable pub escape_each : List ℕ → Text → Text
unfolding replace_char
escape_each [] s = s
escape_each (c ∷ cs) s = escape_each cs (replace_char c (escaped c) s)

-- The two characters `\n`.
abbrev pub newline_text : Text
newline_text = escaped b'n'

abbrev pub or_empty : Option Text → Text
or_empty none = []
or_empty (some s) = s

unfoldable pub escape_value : List ℕ → Option Text → Text
unfolding escape_each replace_newlines
escape_value specials value = replace_newlines newline_text (escape_each specials (or_empty value))

abbrev pub header_specials : List ℕ
header_specials = b'\\' ∷ b'|' ∷ []

abbrev pub extension_specials : List ℕ
extension_specials = b'\\' ∷ b'=' ∷ b'|' ∷ []

unfoldable pub escape_cef_header_field : Option Text → Text
unfolding escape_value
escape_cef_header_field value = escape_value header_specials value

unfoldable pub escape_cef_extension_value : Option Text → Text
unfolding escape_value
escape_cef_extension_value value = escape_value extension_specials value
