-- ===== src/Export/Pieces.antt =====
-- What the reader makes of escaped values and of keys.
use mathlib.Core.Path.{subst, ap₂}
use net_audit.Export.EscapeLaws.{==-sym}
use net_audit.Export.Reader.{read_field, unescaped, onto_head, into_field, split_last}
use net_audit.Export.Reader.{pieces}
use net_audit.Common.Text.{Text}
use net_audit.Export.EscapeLaws.{is_special, flat_map, escape_all}
use net_audit.Common.{
  ◌==◌, ==→eq, Bool-cases, all, ℕ, ◌≡◌, refl, sym, ap, ◌∙◌, inl, inr, Bool, true, false, not, ◌&&◌,
  none, some, List, [], ◌∷◌, ◌++◌, arith,
}

-- A character is read back from its escape, by a reader that stops at `stop`.
abbrev pub IsSafe : List ℕ → ℕ → Type 0
IsSafe specials stop =
    (is_special specials b'\\' ≡ true)
    × ((is_special specials stop ≡ true) × (is_special specials b'n' ≡ false))

differs :
    (specials : List ℕ) (c d : ℕ)
    → is_special specials d ≡ true
    → is_special specials c ≡ false
    → (c == d) ≡ false
differs specials c d h k = elim (Bool-cases (c == d)) [
  | inl same ↦
      absurd (clash (sym (subst (λ x. is_special specials x ≡ true) (sym (==→eq c d same)) h) ∙ k))
  | inr other ↦ other
]
  where
    clash : true ≡ false → ⊥
    clash e = cc

same_unescaped :
    (specials : List ℕ) (c : ℕ)
    → is_special specials b'n' ≡ false
    → is_special specials c ≡ true
    → unescaped c ≡ c
same_unescaped specials c h k = rw (==-sym c b'n', differs specials b'n' c k h) refl

pieces-plain :
    (stop c : ℕ) (t : Text)
    → (c == b'\\') ≡ false
    → (c == stop) ≡ false
    → pieces stop false (c ∷ t) ≡ onto_head c (pieces stop false t)
unfolding pieces
pieces-plain stop c t h k = rw (h, k, pieces) refl

read_field-plain :
    (c : ℕ) (t : Text)
    → (c == b'\\') ≡ false
    → (c == b'|') ≡ false
    → read_field false (c ∷ t) ≡ into_field c (read_field false t)
unfolding read_field
read_field-plain c t h k = rw (h, k, read_field) refl

abbrev pub push_all : Text → List Text → List Text
push_all [] ps = ps
push_all (c ∷ cs) ps = onto_head c (push_all cs ps)

pub pieces-flat :
    (specials : List ℕ) (stop : ℕ) (s t : Text)
    → IsSafe specials stop
    → pieces stop false (flat_map (escape_all specials) s ++ t) ≡ push_all s (pieces stop false t)
unfolding pieces
pieces-flat specials stop [] t h = refl
pieces-flat specials stop (c ∷ cs) t h =
    let ih = pieces-flat specials stop cs t h in
    elim (Bool-cases (c == 10)) [
      | inl feed ↦ rw (feed, pieces) (ap₂ onto_head (sym (==→eq c 10 feed)) ih)
      | inr other ↦ elim (Bool-cases (is_special specials c)) [
        | inl there ↦
            rw (other) (rw there (ap₂ onto_head (same_unescaped specials c h.1.1 there) ih))
        | inr away ↦
            rw (other, away)
              (pieces-plain stop c (flat_map (escape_all specials) cs ++ t)
                  (differs specials c b'\\' h.0 away) (differs specials c stop h.1.0 away)
                ∙ ap (onto_head c) ih)
      ]
    ]

abbrev pub prepend : Text → Text × Text → Text × Text
prepend [] f = f
prepend (c ∷ cs) f = into_field c (prepend cs f)

pub read_field-flat :
    (specials : List ℕ) (s t : Text)
    → IsSafe specials b'|'
    → read_field false (flat_map (escape_all specials) s ++ t) ≡ prepend s (read_field false t)
unfolding read_field
read_field-flat specials [] t h = refl
read_field-flat specials (c ∷ cs) t h =
    let ih = read_field-flat specials cs t h in
    elim (Bool-cases (c == 10)) [
      | inl feed ↦ rw (feed) (ap₂ into_field (sym (==→eq c 10 feed)) ih)
      | inr other ↦ elim (Bool-cases (is_special specials c)) [
        | inl there ↦
            rw (other) (rw there (ap₂ into_field (same_unescaped specials c h.1.1 there) ih))
        | inr away ↦
            rw (other, away)
              (read_field-plain c (flat_map (escape_all specials) cs ++ t)
                  (differs specials c b'\\' h.0 away) (differs specials c b'|' h.1.0 away)
                ∙ ap (into_field c) ih)
      ]
    ]

-- A key: no bar, equals sign, backslash, space or line end.
abbrev pub is_key_char : ℕ → Bool
is_key_char c = not (c == b'\\') && (not (c == b'=') && (not (c == b' ') && (not (c == 10))))

abbrev pub is_key : Text → Bool
is_key s = all is_key_char s

pub pieces-key :
    (s t : Text) → is_key s ≡ true → pieces b'=' false (s ++ t) ≡ push_all s (pieces b'=' false t)
unfolding pieces
pieces-key [] t h = refl
pieces-key (c ∷ cs) t h =
    let ih = pieces-key cs t (ground arith) in
    let plain : (c == b'\\') ≡ false = ground arith in
    let apart : (c == b'=') ≡ false = ground arith in
    pieces-plain b'=' c (cs ++ t) plain apart ∙ ap (onto_head c) ih

pub split_last-key : (s : Text) → is_key s ≡ true → split_last s ≡ none
unfolding split_last
split_last-key [] h = refl
split_last-key (c ∷ cs) h =
    let ih = split_last-key cs (ground arith) in
    let apart : (c == b' ') ≡ false = ground arith in rw (ih) (rw apart refl)

pub split_last-value :
    (s key : Text) → is_key key ≡ true → split_last (s ++ (b' ' ∷ key)) ≡ some (s, key)
unfolding split_last
split_last-value [] key h = rw (split_last-key key h) refl
split_last-value (c ∷ cs) key h = rw (split_last-value cs key h) refl

pub push_all-cons : (s t : Text) (ts : List Text) → push_all s (t ∷ ts) ≡ (s ++ t) ∷ ts
push_all-cons [] t ts = refl
push_all-cons (c ∷ cs) t ts = ap (onto_head c) (push_all-cons cs t ts)

pub prepend-field : (s t : Text) → prepend s ([], t) ≡ (s, t)
prepend-field [] t = refl
prepend-field (c ∷ cs) t = ap (into_field c) (prepend-field cs t)
