-- ===== src/Export/Extension.antt =====
-- The extension of a CEF line, read back.
use net_audit.Export.EscapeLaws.{flat_map, escape_all}
use net_audit.Export.EscapeLaws.{normalised}
use net_audit.Export.Reader.{pair_up, split_pair, pieces, split_last, pairs_of, onto_head}
use net_audit.Common.Text.{join, codes}
use net_audit.Export.Cef.{cef_pair}
use net_audit.Export.Escapes.{escape_cef_extension_value}
use net_audit.Common.Text.{Text}
use mathlib.Core.List.{append_assoc, append-nil}
use mathlib.Core.Path.{ap₂}
use net_audit.Export.Pieces.{
  pieces-flat, is_key, split_last-value, push_all, pieces-key, push_all-cons,
}
use net_audit.Export.Newlines.{escape_value-flat}
use net_audit.Common.{All, ℕ, ◌≡◌, refl, sym, ap, ◌∙◌, true, false, some, List, [], ◌∷◌, ◌++◌, map}

abbrev pub normalised_pair : Text × Text → Text × Text
normalised_pair p = (p.0, normalised p.1)

-- The special characters, the last first.
abbrev pub in_extension : List ℕ
in_extension = b'|' ∷ b'=' ∷ b'\\' ∷ []

pub escape_extension-flat :
    (v : Text)
    → escape_cef_extension_value (some v) ≡ flat_map (escape_all in_extension) (normalised v)
unfolding escape_cef_extension_value
escape_extension-flat v = escape_value-flat (b'=' ∷ b'|' ∷ []) (some v) refl refl refl

-- The pieces behind a key.
abbrev values : Text → List (Text × Text) → List Text
values v [] = normalised v ∷ []
values v (p ∷ ps) = (normalised v ++ (b' ' ∷ p.0)) ∷ values p.1 ps

pieces-pair :
    (k v t : Text)
    → is_key k ≡ true
    → pieces b'=' false (cef_pair (k, v) ++ t) ≡ k ∷ push_all (normalised v) (pieces b'=' false t)
unfolding cef_pair
pieces-pair k v t h =
    ap (pieces b'=' false) (append_assoc k (b'=' ∷ escape_cef_extension_value (some v)) t)
    ∙ pieces-key k (b'=' ∷ (escape_cef_extension_value (some v) ++ t)) h
    ∙ ap (push_all k) (equals_sign (escape_cef_extension_value (some v) ++ t))
    ∙ push_all-cons k [] (pieces b'=' false (escape_cef_extension_value (some v) ++ t))
    ∙ ap₂ (λ (a : Text) (b : List Text). a ∷ b) (append-nil k)
        (ap (λ u. pieces b'=' false (u ++ t)) (escape_extension-flat v)
          ∙ pieces-flat in_extension b'=' (normalised v) t (refl, (refl, refl)))
  where
    equals_sign : (u : Text) → pieces b'=' false (b'=' ∷ u) ≡ [] ∷ pieces b'=' false u
    equals_sign u = unfold pieces in refl

pieces-pairs :
    (k v : Text) (ps : List (Text × Text))
    → is_key k ≡ true
    → All (λ p. is_key p.0 ≡ true) ps
    → pieces b'=' false (join (codes " ") (map cef_pair ((k, v) ∷ ps))) ≡ k ∷ values v ps
unfolding join
pieces-pairs k v [] h hs =
    ap (pieces b'=' false) (sym (append-nil (cef_pair (k, v))))
    ∙ pieces-pair k v [] h
    ∙ ap (λ (vs : List Text). k ∷ vs)
        (ap (push_all (normalised v)) nothing
          ∙ push_all-cons (normalised v) [] []
          ∙ ap (λ (t : Text). t ∷ []) (append-nil (normalised v)))
  where
    nothing : pieces b'=' false [] ≡ [] ∷ []
    nothing = unfold pieces in refl
pieces-pairs k v (p ∷ ps) h hs =
    let ih = pieces-pairs p.0 p.1 ps hs.0 hs.1 in
    let j = join (codes " ") (map cef_pair (p ∷ ps)) in
    pieces-pair k v (b' ' ∷ j) h
    ∙ ap (λ (vs : List Text). k ∷ push_all (normalised v) vs) (space j ∙ ap (onto_head b' ') ih)
    ∙ ap (λ (vs : List Text). k ∷ vs) (push_all-cons (normalised v) (b' ' ∷ p.0) (values p.1 ps))
  where
    space : (u : Text) → pieces b'=' false (b' ' ∷ u) ≡ onto_head b' ' (pieces b'=' false u)
    space u = unfold pieces in refl

pair_up-more :
    (k value v : Text) (ps : List (Text × Text))
    → pair_up k (value ∷ values v ps)
      ≡ (k, (split_pair (split_last value)).0)
        ∷ pair_up (split_pair (split_last value)).1 (values v ps)
unfolding pair_up
pair_up-more k value v [] = refl
pair_up-more k value v (p ∷ ps) = refl

pair_up-values :
    (k v : Text) (ps : List (Text × Text))
    → All (λ p. is_key p.0 ≡ true) ps
    → pair_up k (values v ps) ≡ (k, normalised v) ∷ map normalised_pair ps
unfolding pair_up
pair_up-values k v [] hs = refl
pair_up-values k v (p ∷ ps) hs =
    pair_up-more k (normalised v ++ (b' ' ∷ p.0)) p.1 ps
    ∙ rw (split_last-value (normalised v) p.0 hs.0)
        (ap (λ (qs : List (Text × Text)). (k, normalised v) ∷ qs) (pair_up-values p.0 p.1 ps hs.1))

pub pairs_of-pieces :
    (ps : List (Text × Text))
    → All (λ p. is_key p.0 ≡ true) ps
    → pairs_of (pieces b'=' false (join (codes " ") (map cef_pair ps))) ≡ map normalised_pair ps
unfolding join
pairs_of-pieces [] hs = unfold pieces in unfold pair_up in refl
pairs_of-pieces (p ∷ ps) hs =
    ap pairs_of (pieces-pairs p.0 p.1 ps hs.0 hs.1) ∙ pair_up-values p.0 p.1 ps hs.1
