-- ===== src/Export/Newlines.antt =====
-- The escape of line ends, character by character.
use mathlib.Core.Path.{subst}
use net_audit.Export.EscapeLaws.{
  is_special, flat_map, escape_char, escape_all, normalised, are_fresh, gathered, escape_each-flat,
}
use net_audit.Export.Escapes.{
  replace_char, starts_with, newline_text, escape_value, replace_newlines, replace_crlf, or_empty,
}
use net_audit.Export.Escapes.{replace_crlf_from}
use net_audit.Common.Text.{Text}
use net_audit.Common.{
  ◌==◌, ==→eq, Bool-cases, ℕ, ◌≡◌, refl, sym, ap, ◌∙◌, inl, inr, Bool, true, false, ◌&&◌, ◌||◌,
  Option, List, [], ◌∷◌, ◌++◌, arith,
}

abbrev replace_both : Text → Text → Text
replace_both by s = replace_char 13 by (replace_char 10 by s)

crlf-other :
    (by : Text) (x : ℕ) (xs : Text)
    → (x == 13) ≡ false
    → replace_crlf_from false by (x ∷ xs) ≡ x ∷ replace_crlf_from false by xs
unfolding replace_crlf_from
crlf-other by x xs h = rw (h, replace_crlf_from) refl

crlf-return :
    (by : Text) (x : ℕ) (xs : Text)
    → starts_with 10 xs ≡ false
    → replace_crlf_from false by (x ∷ xs) ≡ x ∷ replace_crlf_from false by xs
unfolding replace_crlf_from
crlf-return by x xs h = alone (x == 13)
  where
    alone :
        (b : Bool)
        → (elim (b && starts_with 10 xs) [
          | true ↦ by ++ replace_crlf_from true by xs
          | false ↦ x ∷ replace_crlf_from false by xs
        ])
          ≡ x ∷ replace_crlf_from false by xs
    alone true = rw h refl
    alone false = refl

both-other :
    (x : ℕ) (xs : Text)
    → (x == 10) ≡ false
    → (x == 13) ≡ false
    → replace_both newline_text (x ∷ xs) ≡ x ∷ replace_both newline_text xs
unfolding replace_char
both-other x xs h k = rw (h) (rw k refl)

both-end :
    (x : ℕ) (xs : Text)
    → ((x == 10) || (x == 13)) ≡ true
    → replace_both newline_text (x ∷ xs) ≡ newline_text ++ replace_both newline_text xs
unfolding replace_char
both-end x xs h = elim (Bool-cases (x == 10)) [
  | inl feed ↦ rw feed refl
  | inr other ↦ let back : (x == 13) ≡ true = ground arith in rw (other) (rw back refl)
]

module _ (specials : List ℕ) (no_feed : is_special specials 10 ≡ false)
    (no_return : is_special specials 13 ≡ false) where
  abbrev F : Text → Text
  F s = flat_map (escape_char specials) s

  starts-F : (s : Text) → starts_with 10 s ≡ false → starts_with 10 (F s) ≡ false
  starts-F [] h = refl
  starts-F (c ∷ cs) h = elim (Bool-cases (is_special specials c)) [
    | inl there ↦ rw there refl
    | inr away ↦ rw away h
  ]

  -- A character that is no line end.
  plain_char :
      (c : ℕ) (t : Text)
      → (c == 10) ≡ false
      → (c == 13) ≡ false
      → replace_both newline_text
          (replace_crlf_from false newline_text (escape_char specials c ++ t))
        ≡ escape_char specials c
          ++ replace_both newline_text (replace_crlf_from false newline_text t)
  plain_char c t h k = elim (Bool-cases (is_special specials c)) [
    | inl there ↦ rw there (
        ap (replace_both newline_text) (
          crlf-other newline_text b'\\' (c ∷ t) refl
          ∙ ap (λ (u : Text). b'\\' ∷ u) (crlf-other newline_text c t k))
        ∙ both-other b'\\' (c ∷ replace_crlf_from false newline_text t) refl refl
        ∙ ap (λ (u : Text). b'\\' ∷ u) (both-other c (replace_crlf_from false newline_text t) h k))
    | inr away ↦ rw away (
        ap (replace_both newline_text) (crlf-other newline_text c t k)
        ∙ both-other c (replace_crlf_from false newline_text t) h k)
  ]

  abbrev Holds : Text → Type 0
  Holds s =
      replace_both newline_text (replace_crlf_from false newline_text (F s))
      ≡ flat_map (escape_all specials)
          (replace_char 13 (10 ∷ []) (replace_crlf_from false (10 ∷ []) s))

  -- A carriage return with its line feed, and either alone.
  pair-Holds : (ds : Text) → Holds ds → Holds (13 ∷ 10 ∷ ds)
  unfolding replace_crlf_from replace_char
  pair-Holds ds rest = rw (no_return, no_feed) (ap (λ (u : Text). b'\\' ∷ b'n' ∷ u) rest)

  feed-Holds : (cs : Text) → Holds cs → Holds (10 ∷ cs)
  unfolding replace_crlf_from replace_char
  feed-Holds cs rest = rw no_feed (ap (λ (u : Text). b'\\' ∷ b'n' ∷ u) rest)

  return-Holds : (cs : Text) → starts_with 10 cs ≡ false → Holds cs → Holds (13 ∷ cs)
  unfolding replace_char
  return-Holds cs h rest =
      rw
        (
          no_return,
          crlf-return newline_text 13 (F cs) (starts-F cs h),
          crlf-return (10 ∷ []) 13 cs h,
        )
        (ap (λ (u : Text). b'\\' ∷ b'n' ∷ u) rest)

  plain-Holds :
      (c : ℕ) (cs : Text) → (c == 10) ≡ false → (c == 13) ≡ false → Holds cs → Holds (c ∷ cs)
  unfolding replace_char
  plain-Holds c cs h k rest =
      rw (crlf-other (10 ∷ []) c cs k, k)
        (rw h (plain_char c (F cs) h k ∙ ap (λ (u : Text). escape_char specials c ++ u) rest))

  step-Holds :
      (c : ℕ) (cs : Text) → (c == 13 && starts_with 10 cs) ≡ false → Holds cs → Holds (c ∷ cs)
  step-Holds c cs h rest = elim (Bool-cases (c == 13)) [
    | inl back ↦
        subst (λ x. Holds (x ∷ cs)) (sym (==→eq c 13 back)) (return-Holds cs (ground arith) rest)
    | inr kept ↦ elim (Bool-cases (c == 10)) [
      | inl feed ↦ subst (λ x. Holds (x ∷ cs)) (sym (==→eq c 10 feed)) (feed-Holds cs rest)
      | inr other ↦ plain-Holds c cs other kept rest
    ]
  ]

  newlines-Holds : (s : Text) → Holds s
  unfolding replace_char replace_crlf_from
  newlines-Holds [] = refl
  newlines-Holds (c ∷ []) = step-Holds c [] (ground arith) (newlines-Holds [])
  newlines-Holds (c ∷ d ∷ ds) = elim (Bool-cases (c == 13 && d == 10)) [
    | inl ends ↦
        subst (λ x. Holds (x ∷ d ∷ ds)) (sym (==→eq c 13 (ground arith)))
          (subst (λ x. Holds (13 ∷ x ∷ ds)) (sym (==→eq d 10 (ground arith)))
            (pair-Holds ds (newlines-Holds ds)))
    | inr apart ↦ step-Holds c (d ∷ ds) apart (newlines-Holds (d ∷ ds))
  ]

-- A value's escape is the escape of its characters, once its line ends are line feeds.
pub escape_value-flat :
    (cs : List ℕ) (value : Option Text)
    → are_fresh cs (b'\\' ∷ []) ≡ true
    → is_special (gathered cs (b'\\' ∷ [])) 10 ≡ false
    → is_special (gathered cs (b'\\' ∷ [])) 13 ≡ false
    → escape_value (b'\\' ∷ cs) value
      ≡ flat_map (escape_all (gathered cs (b'\\' ∷ []))) (normalised (or_empty value))
unfolding escape_value replace_newlines normalised replace_crlf
escape_value-flat cs value h no_feed no_return =
    ap (replace_newlines newline_text) (escape_each-flat cs (or_empty value) h)
    ∙ newlines-Holds (gathered cs (b'\\' ∷ [])) no_feed no_return (or_empty value)
