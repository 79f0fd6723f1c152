-- ===== src/Struct/Laws.antt =====
-- What `pack` writes, `unpack` reads back; `unpack` succeeds exactly on a buffer of the format's size.
use mathlib.Core.List.{append-nil, append_assoc}
use mathlib.Core.Path.{ap₂, sym}
use net_audit.Common.{
  ℕ, suc, ◌^◌, ◌<◌, ◌≡◌, refl, ap, ◌∙◌, some, List, [], ◌∷◌, ◌++◌, arith, length, take, drop,
  length-append, take-append, drop-append, eq→==, lt→ltb,
}
use net_audit.Struct.{ByteOrder, to_bytes, from_bytes, calcsize, pack, fields, unpack}
use net_audit.Struct.Words.{from_bytes-to_bytes, length-to_bytes}

pub length-fields : (o : ByteOrder) (ws raw : List ℕ) → length (fields o ws raw) ≡ length ws
unfolding fields
length-fields o [] raw = refl
length-fields o (w ∷ ws) raw = ap suc (length-fields o ws (drop w raw))

pub pack_inv :
    (o : ByteOrder) (w : ℕ) (ws : List ℕ) (v : ℕ) (vs : List ℕ) {raw : List ℕ}
    → pack o (w ∷ ws) (v ∷ vs) ≡ some raw
    → (v < 256 ^ w)
      × ((rest : List ℕ) × (pack o ws vs ≡ some rest) × (raw ≡ to_bytes o w v ++ rest))
unfolding pack
pack_inv o w ws v vs h = ground arith

pub length-pack :
    (o : ByteOrder) (ws vs : List ℕ) {raw : List ℕ}
    → pack o ws vs ≡ some raw
    → length raw ≡ calcsize ws
length-pack o [] [] h = unfold pack in ground arith
length-pack o [] (v ∷ vs) h = unfold pack in cc
length-pack o (w ∷ ws) [] h = unfold pack in cc
length-pack o (w ∷ ws) (v ∷ vs) h =
    let (fits, (rest, p, e)) = pack_inv o w ws v vs h in
    ap length e
    ∙ omega
        (arith, length-append (to_bytes o w v) rest, length-to_bytes o w v, length-pack o ws vs p)

-- Reading at the front of a longer buffer.
pub fields-pack :
    (o : ByteOrder) (ws vs : List ℕ) {raw : List ℕ} (rest : List ℕ)
    → pack o ws vs ≡ some raw
    → fields o ws (raw ++ rest) ≡ vs
unfolding fields pack
fields-pack o [] [] rest h = refl
fields-pack o [] (v ∷ vs) rest h = cc
fields-pack o (w ∷ ws) [] rest h = cc
fields-pack o (w ∷ ws) (v ∷ vs) rest h =
    let (fits, (tail, p, e)) = pack_inv o w ws v vs h in
    let front = to_bytes o w v in
    let size : w ≡ length front = sym (length-to_bytes o w v) in
    let split = ap (λ (t : List ℕ). t ++ rest) e ∙ append_assoc front tail rest in
    ap₂ (λ (a : ℕ) (b : List ℕ). a ∷ b)
      (ap (λ t. from_bytes o (take w t)) split
        ∙ ap (from_bytes o) (take-append front (tail ++ rest) w size)
        ∙ from_bytes-to_bytes o w v fits)
      (ap (λ t. fields o ws (drop w t)) split
        ∙ ap (fields o ws) (drop-append front (tail ++ rest) w size)
        ∙ fields-pack o ws vs rest p)

pub unpack-pack :
    (o : ByteOrder) (ws vs : List ℕ) {raw : List ℕ}
    → pack o ws vs ≡ some raw
    → unpack o ws raw ≡ some vs
unfolding unpack
unpack-pack o ws vs {raw} h =
    rw (eq→== (length raw) (calcsize ws) (length-pack o ws vs h))
      (ap (λ t. some (fields o ws t)) (sym (append-nil raw)) ∙ ap some (fields-pack o ws vs [] h))

pub unpack_total :
    (o : ByteOrder) (ws raw : List ℕ)
    → length raw ≡ calcsize ws
    → unpack o ws raw ≡ some (fields o ws raw)
unfolding unpack
unpack_total o ws raw h = rw (eq→== (length raw) (calcsize ws) h)

-- Each value fits the field of its place.
abbrev pub Fits : List ℕ → List ℕ → Type 0
Fits [] [] = Unit
Fits (w ∷ ws) (v ∷ vs) = (v < 256 ^ w) × Fits ws vs
Fits _ _ = ⊥

pub pack_total :
    (o : ByteOrder) (ws vs : List ℕ) → Fits ws vs → (raw : List ℕ) × (pack o ws vs ≡ some raw)
unfolding pack
pack_total o [] [] h = ([], refl)
pack_total o [] (v ∷ vs) h = absurd h
pack_total o (w ∷ ws) [] h = absurd h
pack_total o (w ∷ ws) (v ∷ vs) h =
    let (rest, e) = pack_total o ws vs h.1 in
    (to_bytes o w v ++ rest, rw (lt→ltb v (256 ^ w) h.0, e))
