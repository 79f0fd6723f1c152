-- ===== src/Export/EscapeLaws.antt =====
-- The escapes, character by character.
use mathlib.Core.List.{append_assoc}
use mathlib.Core.Path.{ap₂, subst}
use net_audit.Export.Escapes.{replace_char, escaped, newline_text, replace_crlf, escape_each}
use net_audit.Common.Text.{Text}
use net_audit.Common.{
  ◌==◌, if◌then◌else◌, ==→eq, Bool-cases, any, ℕ, ◌≡◌, refl, sym, ap, ◌∙◌, inl, inr, Bool, true,
  false, not, ◌&&◌, List, [], ◌∷◌, ◌++◌, arith,
}

abbrev pub is_special : List ℕ → ℕ → Bool
is_special specials c = any (λ x. c == x) specials

abbrev pub escape_char : List ℕ → ℕ → Text
escape_char specials c = if is_special specials c then escaped c else c ∷ []

-- As `escape_char`, with a line feed as two characters.
abbrev pub escape_all : List ℕ → ℕ → Text
escape_all specials c = if c == 10 then newline_text else escape_char specials c

abbrev pub flat_map : (ℕ → Text) → Text → Text
flat_map f [] = []
flat_map f (c ∷ cs) = f c ++ flat_map f cs

-- Every line end as a line feed.
unfoldable pub normalised : Text → Text
unfolding replace_char replace_crlf
normalised s = replace_char 13 (10 ∷ []) (replace_crlf (10 ∷ []) s)

replace_char-append :
    (c : ℕ) (by xs ys : Text)
    → replace_char c by (xs ++ ys) ≡ replace_char c by xs ++ replace_char c by ys
unfolding replace_char
replace_char-append c by [] ys = refl
replace_char-append c by (x ∷ xs) ys =
    ap (λ t. (if x == c then by else x ∷ []) ++ t) (replace_char-append c by xs ys)
    ∙ sym
        (append_assoc (if x == c then by else x ∷ []) (replace_char c by xs) (replace_char c by ys))

pub ==-sym : (a b : ℕ) → (a == b) ≡ (b == a)
==-sym a b = ground arith

apart : true ≡ false → ⊥
apart h = cc

-- One more character to escape.
escape-one :
    (c : ℕ) (specials : List ℕ) (x : ℕ)
    → is_special specials c ≡ false
    → (c == b'\\') ≡ false
    → replace_char c (escaped c) (escape_char specials x) ≡ escape_char (c ∷ specials) x
unfolding replace_char
escape-one c specials x fresh plain = elim (Bool-cases (is_special specials x)) [
  | inl there ↦ elim (Bool-cases (x == c)) [
    | inl same ↦
        let k : is_special specials c ≡ true =
          subst (λ y. is_special specials y ≡ true) (==→eq x c same) there in
        let k' : true ≡ false = sym k ∙ fresh in absurd (apart k')
    | inr other ↦ rw (there, other, ==-sym b'\\' c, plain) refl
  ]
  | inr away ↦ elim (Bool-cases (x == c)) [
    | inl same ↦ rw (away, same) (ap escaped (sym (==→eq x c same)))
    | inr other ↦ rw (away, other) refl
  ]
]

replace-flat :
    (c : ℕ) (specials : List ℕ) (s : Text)
    → is_special specials c ≡ false
    → (c == b'\\') ≡ false
    → replace_char c (escaped c) (flat_map (escape_char specials) s)
      ≡ flat_map (escape_char (c ∷ specials)) s
unfolding replace_char
replace-flat c specials [] fresh plain = refl
replace-flat c specials (x ∷ xs) fresh plain =
    replace_char-append c (escaped c) (escape_char specials x) (flat_map (escape_char specials) xs)
    ∙ ap₂ (λ (a b : Text). a ++ b) (escape-one c specials x fresh plain)
        (replace-flat c specials xs fresh plain)

-- Fresh characters, each beside the ones that are escaped already.
abbrev pub are_fresh : List ℕ → List ℕ → Bool
are_fresh [] specials = true
are_fresh (c ∷ cs) specials =
    not (is_special specials c) && (not (c == b'\\') && are_fresh cs (c ∷ specials))

abbrev pub gathered : List ℕ → List ℕ → List ℕ
gathered [] specials = specials
gathered (c ∷ cs) specials = gathered cs (c ∷ specials)

each-flat :
    (cs specials : List ℕ) (s : Text)
    → are_fresh cs specials ≡ true
    → escape_each cs (flat_map (escape_char specials) s)
      ≡ flat_map (escape_char (gathered cs specials)) s
unfolding escape_each
each-flat [] specials s h = refl
each-flat (c ∷ cs) specials s h =
    ap (escape_each cs) (replace-flat c specials s (ground arith) (ground arith))
    ∙ each-flat cs (c ∷ specials) s (ground arith)

first-flat :
    (s : Text) → replace_char b'\\' (escaped b'\\') s ≡ flat_map (escape_char (b'\\' ∷ [])) s
unfolding replace_char
first-flat [] = refl
first-flat (x ∷ xs) = elim (Bool-cases (x == b'\\')) [
  | inl same ↦
      rw (same, first-flat xs)
        (ap (λ c. b'\\' ∷ (c ∷ flat_map (escape_char (b'\\' ∷ [])) xs)) (sym (==→eq x b'\\' same)))
  | inr other ↦ rw (other, first-flat xs) refl
]

pub escape_each-flat :
    (cs : List ℕ) (s : Text)
    → are_fresh cs (b'\\' ∷ []) ≡ true
    → escape_each (b'\\' ∷ cs) s ≡ flat_map (escape_char (gathered cs (b'\\' ∷ []))) s
unfolding escape_each
escape_each-flat cs s h = ap (escape_each cs) (first-flat s) ∙ each-flat cs (b'\\' ∷ []) s h
