-- ===== src/Export/Reader.antt =====
-- A reader of CEF lines: the fields of the header stand between bars, an extension is made of key=value
-- pairs between spaces, and a backslash takes the next character literally, except `\n`.
use net_audit.Common.Text.{Text}
use net_audit.Common.{
  ◌==◌, if◌then◌else◌, ℕ, zero, suc, Bool, true, false, Option, none, some, List, [], ◌∷◌, ◌++◌,
  map,
}

-- What a character behind a backslash stands for.
abbrev pub unescaped : ℕ → ℕ
unescaped c = if c == b'n' then 10 else c

abbrev pub onto_head : ℕ → List Text → List Text
onto_head c [] = (c ∷ []) ∷ []
onto_head c (t ∷ ts) = (c ∷ t) ∷ ts

-- The pieces between the separators that no backslash stands in front of.
unfoldable pub pieces : ℕ → Bool → Text → List Text
pieces separator is_escaped [] = [] ∷ []
pieces separator true (c ∷ cs) = onto_head (unescaped c) (pieces separator false cs)
pieces separator false (c ∷ cs) = elim (c == b'\\') [
  | true ↦ pieces separator true cs
  | false ↦ elim (c == separator) [
    | true ↦ [] ∷ pieces separator false cs
    | false ↦ onto_head c (pieces separator false cs)
  ]
]

-- A field of the header, and what stands behind its bar.
abbrev pub into_field : ℕ → Text × Text → Text × Text
into_field c (field, rest) = (c ∷ field, rest)

unfoldable pub read_field : Bool → Text → Text × Text
read_field is_escaped [] = ([], [])
read_field true (c ∷ cs) = into_field (unescaped c) (read_field false cs)
read_field false (c ∷ cs) = elim (c == b'\\') [
  | true ↦ read_field true cs
  | false ↦ elim (c == b'|') [ true ↦ ([], cs) | false ↦ into_field c (read_field false cs) ]
]

unfoldable pub read_fields : ℕ → Text → List Text × Text
unfolding read_field
read_fields zero s = ([], s)
read_fields (suc n) s =
    let f : Text × Text = read_field false s in
    let rest : List Text × Text = read_fields n f.1 in (f.0 ∷ rest.0, rest.1)

-- A value and the key behind its last space.
abbrev pub into_value : ℕ → Option (Text × Text) → Text → Option (Text × Text)
into_value c (some (value, key)) cs = some (c ∷ value, key)
into_value c none cs = if c == b' ' then some ([], cs) else none

unfoldable pub split_last : Text → Option (Text × Text)
split_last [] = none
split_last (c ∷ cs) = into_value c (split_last cs) cs

abbrev pub split_pair : Option (Text × Text) → Text × Text
split_pair none = ([], [])
split_pair (some p) = p

unfoldable pub pair_up : Text → List Text → List (Text × Text)
unfolding split_last
pair_up key [] = []
pair_up key (value ∷ []) = (key, value) ∷ []
pair_up key (value ∷ v ∷ vs) =
    let p : Text × Text = split_pair (split_last value) in (key, p.0) ∷ pair_up p.1 (v ∷ vs)

abbrev pub pairs_of : List Text → List (Text × Text)
pairs_of [] = []
pairs_of (key ∷ vs) = pair_up key vs

pub record CefRecord : Type 0 where
  pub header : List Text
  pub extension : List (Text × Text)

unfoldable pub read_line : Text → CefRecord
unfolding read_fields pieces pair_up
read_line s =
    let h : List Text × Text = read_fields 7 s in
    record { header = h.0; extension = pairs_of (pieces b'=' false h.1) }

-- The lines that a line feed ends.
abbrev pub onto_line : ℕ → List Text → List Text
onto_line c [] = []
onto_line c (t ∷ ts) = (c ∷ t) ∷ ts

unfoldable pub lines_from : Text → Text → List Text
lines_from line [] = []
lines_from line (c ∷ cs) = elim (c == 10) [
  | true ↦ line ∷ lines_from [] cs
  | false ↦ lines_from (line ++ (c ∷ [])) cs
]

unfoldable pub read_stream : Text → List CefRecord
unfolding lines_from read_line
read_stream s = map read_line (lines_from [] s)
