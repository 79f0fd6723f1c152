-- ===== src/Export/Line.antt =====
-- A CEF line, read back.
use net_audit.Export.EscapeLaws.{normalised}
use net_audit.Export.Pieces.{is_key, read_field-flat, prepend, prepend-field}
use net_audit.Export.{Event}
use net_audit.Export.Reader.{read_line, read_field, read_fields, CefRecord, pairs_of, pieces}
use net_audit.Common.Text.{join, codes, text_eq, digits_onto}
use net_audit.Common.Text.{decimal}
use net_audit.Export.Escapes.{escape_cef_header_field, or_empty}
use net_audit.Export.Cef.{
  ext_pairs, technique_pairs, severity_to_cef, cef_line, optional_pair, cef_header, cef_pair,
}
use net_audit.Common.Text.{Text}
use mathlib.Core.List.{append_assoc}
use net_audit.Export.Newlines.{escape_value-flat}
use net_audit.Export.Extension.{normalised_pair, pairs_of-pieces}
use net_audit.Common.{
  if◌then◌else◌, length, All, All-append, ℕ, ◌≡◌, refl, ap, ◌∙◌, Bool, true, false, Option, none,
  some, List, [], ◌∷◌, ◌++◌, map,
}

-- The record of an event: its header's fields and its pairs, each with its line ends as line feeds.
abbrev pub record_of : (ℕ → Text) → Event → CefRecord
record_of iso_z ev = record {
  header =
      codes "CEF:0"
      ∷ codes "NetAudit"
      ∷ codes "NetAudit"
      ∷ codes "1.0"
      ∷ normalised (or_empty ev.category)
      ∷ normalised (or_empty ev.title)
      ∷ decimal (severity_to_cef ev.severity)
      ∷ [];
  extension = map normalised_pair (ext_pairs iso_z ev);
}

-- Keys.
unfoldable pub AllKeys : List (Text × Text) → Type 0
AllKeys ps = All (λ p. is_key p.0 ≡ true) ps

optional-AllKeys :
    (key : Text) (value : Option Text) → is_key key ≡ true → AllKeys (optional_pair key value)
unfolding AllKeys
optional-AllKeys key none h = tt
optional-AllKeys key (some []) h = tt
optional-AllKeys key (some (c ∷ cs)) h = (h, tt)

technique-AllKeys : (value : Option Text) → AllKeys (technique_pairs value)
unfolding AllKeys
technique-AllKeys none = tt
technique-AllKeys (some []) = tt
technique-AllKeys (some (c ∷ cs)) = (refl, (refl, tt))

both-AllKeys : (ps qs : List (Text × Text)) → AllKeys ps → AllKeys qs → AllKeys (ps ++ qs)
unfolding AllKeys
both-AllKeys ps qs h k = All-append (λ p. is_key p.0 ≡ true) ps qs h k

pub ext_pairs-AllKeys : (iso_z : ℕ → Text) (ev : Event) → AllKeys (ext_pairs iso_z ev)
unfolding ext_pairs AllKeys
ext_pairs-AllKeys iso_z ev = both-AllKeys _ _ (optional-AllKeys (codes "src") ev.source_ip refl) (
    both-AllKeys _ _ (optional-AllKeys (codes "dst") ev.destination_ip refl) (
      both-AllKeys _ _ (optional-AllKeys (codes "proto") ev.protocol refl) (
        both-AllKeys _ _ (optional-AllKeys (codes "dproc") ev.process_name refl) (
          both-AllKeys _ _ (technique-AllKeys ev.technique_id)
            (refl, (refl, optional-AllKeys (codes "msg") ev.message refl))))))

-- A text that is read as a field.
abbrev ReadAs : Text → Text → Type 0
ReadAs raw field = (t : Text) → read_field false (raw ++ (b'|' ∷ t)) ≡ (field, t)

abbrev AllReadAs : List Text → List Text → Type 0
AllReadAs [] [] = Unit
AllReadAs (r ∷ rs) (f ∷ fs) = ReadAs r f × AllReadAs rs fs
AllReadAs _ _ = ⊥

header-ReadAs :
    (value : Option Text) → ReadAs (escape_cef_header_field value) (normalised (or_empty value))
unfolding escape_cef_header_field
header-ReadAs value t =
    ap (λ u. read_field false (u ++ (b'|' ∷ t)))
      (escape_value-flat (b'|' ∷ []) value refl refl refl)
    ∙ read_field-flat (b'|' ∷ b'\\' ∷ []) (normalised (or_empty value)) (b'|' ∷ t)
        (refl, (refl, refl))
    ∙ ap (prepend (normalised (or_empty value))) bar
    ∙ prepend-field (normalised (or_empty value)) t
  where
    bar : read_field false (b'|' ∷ t) ≡ ([], t)
    bar = unfold read_field in refl

either : (P : ℕ → Type 0) (b : Bool) (x y : ℕ) → P x → P y → P (if b then x else y)
either P true x y h k = h
either P false x y h k = k

pub severity-cases :
    (P : ℕ → Type 0) (s : Text) → P 10 → P 8 → P 5 → P 3 → P 1 → P (severity_to_cef s)
severity-cases P s a b c d e = either P (text_eq s (codes "critical")) 10 _ a (
    either P (text_eq s (codes "high")) 8 _ b
      (either P (text_eq s (codes "medium")) 5 _ c (either P (text_eq s (codes "low")) 3 1 d e)))

severity-ReadAs : (s : Text) → ReadAs (decimal (severity_to_cef s)) (decimal (severity_to_cef s))
unfolding decimal digits_onto read_field
severity-ReadAs s =
    severity-cases (λ n. ReadAs (decimal n) (decimal n)) s (λ t. refl) (λ t. refl) (λ t. refl)
      (λ t. refl) (λ t. refl)

join-bar :
    (r : Text) (rs : List Text) (t : Text) (fs : List Text)
    → AllReadAs (r ∷ rs) fs
    → read_fields (length fs) (join (codes "|") (r ∷ rs) ++ (b'|' ∷ t)) ≡ (fs, t)
unfolding join read_fields
join-bar r rs t [] h = absurd h
join-bar r [] t (f ∷ []) h = rw (h.0 t) refl
join-bar r [] t (f ∷ g ∷ fs) h = absurd h.1
join-bar r (q ∷ rs) t (f ∷ fs) h =
    let ih = join-bar q rs t fs h.1 in
    let j = join (codes "|") (q ∷ rs) in
    rw (append_assoc r (b'|' ∷ j) (b'|' ∷ t), h.0 (j ++ (b'|' ∷ t)), ih) refl

unfoldable pub ext_text : (ℕ → Text) → Event → Text
ext_text iso_z ev = join (codes " ") (map cef_pair (ext_pairs iso_z ev))

read_fields-cef :
    (iso_z : ℕ → Text) (ev : Event)
    → read_fields 7 (cef_line iso_z ev) ≡ ((record_of iso_z ev).header, ext_text iso_z ev)
unfolding cef_line cef_header ext_text read_field
read_fields-cef iso_z ev =
    join-bar (codes "CEF:0")
      (codes "NetAudit"
        ∷ codes "NetAudit"
        ∷ codes "1.0"
        ∷ escape_cef_header_field ev.category
        ∷ escape_cef_header_field ev.title
        ∷ decimal (severity_to_cef ev.severity)
        ∷ [])
      (ext_text iso_z ev) (record_of iso_z ev).header
      (
        λ t. refl,
        (
          λ t. refl,
          (
            λ t. refl,
            (
              λ t. refl,
              (
                header-ReadAs ev.category,
                (header-ReadAs ev.title, (severity-ReadAs ev.severity, tt)),
              ),
            ),
          ),
        ),
      )

pub read_line-cef :
    (iso_z : ℕ → Text) (ev : Event) → read_line (cef_line iso_z ev) ≡ record_of iso_z ev
unfolding read_line ext_text AllKeys
read_line-cef iso_z ev =
    ap
      (λ (h : List Text × Text). record {
        header = h.0;
        extension = pairs_of (pieces b'=' false h.1);
      })
      (read_fields-cef iso_z ev)
    ∙ ap
        (λ (ps : List (Text × Text)). record {
          header = (record_of iso_z ev).header;
          extension = ps;
        })
        (pairs_of-pieces (ext_pairs iso_z ev) (ext_pairs-AllKeys iso_z ev))
