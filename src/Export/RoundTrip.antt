-- ===== src/Export/RoundTrip.antt =====
-- What `to_cef` writes, the reader reads back.
use net_audit.Export.Line.{ext_pairs-AllKeys, read_line-cef, record_of, severity-cases, AllKeys}
use net_audit.Export.EscapeLaws.{normalised, flat_map, escape_all, is_special}
use net_audit.Export.Pieces.{is_key}
use net_audit.Export.{Event}
use net_audit.Export.Reader.{read_line, CefRecord, lines_from, read_stream}
use net_audit.Common.Text.{join, codes, digits_onto}
use net_audit.Common.Text.{decimal}
use net_audit.Export.Escapes.{
  escape_cef_header_field, or_empty, escape_cef_extension_value, newline_text, escaped,
}
use net_audit.Export.Cef.{ext_pairs, severity_to_cef, cef_line, cef_header, cef_pair, to_cef}
use net_audit.Common.Text.{Text}
use mathlib.Core.List.{append_assoc, append-nil}
use mathlib.Core.Path.{ap₂}
use net_audit.Export.Newlines.{escape_value-flat}
use net_audit.Export.Extension.{in_extension, escape_extension-flat}
use net_audit.Common.{
  ◌==◌, if◌then◌else◌, All, all, ℕ, ◌≡◌, refl, sym, ap, ◌∙◌, Bool, true, false, not, Option, some,
  List, [], ◌∷◌, ◌++◌, map, arith,
}

-- A text without a line feed.
abbrev is_line : Text → Bool
is_line s = all (λ c. not (c == 10)) s

is_line-append : (s t : Text) → is_line s ≡ true → is_line t ≡ true → is_line (s ++ t) ≡ true
is_line-append [] t h k = k
is_line-append (c ∷ cs) t h k = let ih = is_line-append cs t (ground arith) k in ground (arith, ih)

is_line-escape : (specials : List ℕ) (s : Text) → is_line (flat_map (escape_all specials) s) ≡ true
is_line-escape specials [] = refl
is_line-escape specials (c ∷ cs) =
    is_line-append (escape_all specials c) (flat_map (escape_all specials) cs)
      (one (is_special specials c)) (is_line-escape specials cs)
  where
    one :
        (b : Bool)
        → is_line (if c == 10 then newline_text else if b then escaped c else c ∷ []) ≡ true
    one b = ground arith

is_line-key : (s : Text) → is_key s ≡ true → is_line s ≡ true
is_line-key [] h = refl
is_line-key (c ∷ cs) h = let ih = is_line-key cs (ground arith) in ground (arith, ih)

is_line-pair : (k v : Text) → is_key k ≡ true → is_line (cef_pair (k, v)) ≡ true
unfolding cef_pair
is_line-pair k v h =
    is_line-append k (b'=' ∷ escape_cef_extension_value (some v)) (is_line-key k h)
      (rw (escape_extension-flat v) (is_line-escape in_extension (normalised v)))

is_line-pairs :
    (ps : List (Text × Text)) → AllKeys ps → is_line (join (codes " ") (map cef_pair ps)) ≡ true
unfolding join AllKeys cef_pair
is_line-pairs [] hs = refl
is_line-pairs ((k, v) ∷ []) hs = is_line-pair k v hs.0
is_line-pairs ((k, v) ∷ q ∷ ps) hs =
    is_line-append (cef_pair (k, v)) (b' ' ∷ join (codes " ") (map cef_pair (q ∷ ps)))
      (is_line-pair k v hs.0) (is_line-pairs (q ∷ ps) hs.1)

is_line-severity : (s : Text) → is_line (decimal (severity_to_cef s)) ≡ true
unfolding decimal digits_onto
is_line-severity s = severity-cases (λ n. is_line (decimal n) ≡ true) s refl refl refl refl refl

is_line-header : (value : Option Text) → is_line (escape_cef_header_field value) ≡ true
unfolding escape_cef_header_field
is_line-header value =
    rw (escape_value-flat (b'|' ∷ []) value refl refl refl)
      (is_line-escape (b'|' ∷ b'\\' ∷ []) (normalised (or_empty value)))

is_line-join :
    (r : Text) (rs : List Text)
    → All (λ t. is_line t ≡ true) (r ∷ rs)
    → is_line (join (codes "|") (r ∷ rs)) ≡ true
unfolding join
is_line-join r [] hs = hs.0
is_line-join r (q ∷ rs) hs =
    is_line-append r (b'|' ∷ join (codes "|") (q ∷ rs)) hs.0 (is_line-join q rs hs.1)

is_line-cef_line : (iso_z : ℕ → Text) (ev : Event) → is_line (cef_line iso_z ev) ≡ true
unfolding cef_line cef_header
is_line-cef_line iso_z ev =
    is_line-append (cef_header ev) (b'|' ∷ join (codes " ") (map cef_pair (ext_pairs iso_z ev)))
      (is_line-join (codes "CEF:0")
        (codes "NetAudit"
          ∷ codes "NetAudit"
          ∷ codes "1.0"
          ∷ escape_cef_header_field ev.category
          ∷ escape_cef_header_field ev.title
          ∷ decimal (severity_to_cef ev.severity)
          ∷ [])
        (
          refl,
          (
            refl,
            (
              refl,
              (
                refl,
                (
                  is_line-header ev.category,
                  (is_line-header ev.title, (is_line-severity ev.severity, tt)),
                ),
              ),
            ),
          ),
        ))
      (is_line-pairs (ext_pairs iso_z ev) (ext_pairs-AllKeys iso_z ev))

lines_from-other :
    (front : Text) (c : ℕ) (t : Text)
    → (c == 10) ≡ false
    → lines_from front (c ∷ t) ≡ lines_from (front ++ (c ∷ [])) t
unfolding lines_from
lines_from-other front c t h = rw (h, lines_from) refl

lines_from-line :
    (front s t : Text)
    → is_line s ≡ true
    → lines_from front (s ++ (10 ∷ t)) ≡ (front ++ s) ∷ lines_from [] t
unfolding lines_from
lines_from-line front [] t h = ap (λ (l : Text). l ∷ lines_from [] t) (sym (append-nil front))
lines_from-line front (c ∷ cs) t h =
    let other : (c == 10) ≡ false = ground arith in
    lines_from-other front c (cs ++ (10 ∷ t)) other
    ∙ lines_from-line (front ++ (c ∷ [])) cs t (ground arith)
    ∙ ap (λ (l : Text). l ∷ lines_from [] t) (append_assoc front (c ∷ []) cs)

-- Whatever the events hold, the stream of CEF lines reads back as one record for each event, in order:
-- its header has the seven fields and its extension exactly the event's keys and values, with every line
-- end of a value as a line feed. No value adds a line, a field or a pair.
pub read_stream-to_cef :
    (iso_z : ℕ → Text) (evs : List Event)
    → read_stream (to_cef iso_z evs) ≡ map (record_of iso_z) evs
unfolding read_stream to_cef
read_stream-to_cef iso_z [] = unfold lines_from in refl
read_stream-to_cef iso_z (ev ∷ evs) =
    ap (map read_line)
      (lines_from-line [] (cef_line iso_z ev) (to_cef iso_z evs) (is_line-cef_line iso_z ev))
    ∙ ap₂ (λ (r : CefRecord) (rs : List CefRecord). r ∷ rs) (read_line-cef iso_z ev)
        (read_stream-to_cef iso_z evs)
