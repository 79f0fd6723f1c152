-- ===== src/Threat/Lookup.antt =====
-- What `get_threat` finds in a table that changed.
use net_audit.Threat.Store.{get_threat, merged, upsert_threat, update_threat}
use net_audit.Common.Text.{Text, text_eq, text_eq→≡, text_eq_sym}
use net_audit.Threat.{Threat}
use mathlib.Core.Option
use net_audit.Common.{
  if◌then◌else◌, Bool-cases, ◌≡◌, refl, sym, ◌∙◌, inl, inr, false, Option, none, some, List, [],
  ◌∷◌, arith,
}

abbrev pub found_row : Option Threat → Threat → Threat
found_row none row = row
found_row (some old) row = merged old row

pub get-upsert_threat :
    (x : Text) (row : Threat) (ts : List Threat)
    → get_threat x (upsert_threat row ts)
      ≡ (if text_eq row.id x then some (found_row (get_threat row.id ts) row) else get_threat x ts)
unfolding get_threat upsert_threat
get-upsert_threat x row [] = refl
get-upsert_threat x row (t ∷ ts) = elim (Bool-cases (text_eq t.id row.id)) [
  | inl same ↦ let e : t.id ≡ row.id = text_eq→≡ t.id row.id same in rw (same, e) (ground arith)
  | inr other ↦ elim (Bool-cases (text_eq t.id x)) [
    | inl here ↦
        let e : t.id ≡ x = text_eq→≡ t.id x here in
        let apart : text_eq row.id x ≡ false = rw (sym e) (text_eq_sym row.id t.id ∙ other) in
        rw (other, here, apart) refl
    | inr there ↦ rw (other, there, get-upsert_threat x row ts) refl
  ]
]

pub get-update_threat :
    (x y : Text) (change : Threat → Threat) (ts : List Threat)
    → ((t : Threat) → (change t).id ≡ t.id)
    → get_threat y (update_threat x change ts)
      ≡ (if text_eq x y then Option.map change (get_threat x ts) else get_threat y ts)
unfolding get_threat update_threat
get-update_threat x y change [] keeps = ground arith
get-update_threat x y change (t ∷ ts) keeps =
    let rest = get-update_threat x y change ts keeps in
    elim (Bool-cases (text_eq t.id x)) [
      | inl same ↦
          let e : t.id ≡ x = text_eq→≡ t.id x same in
          rw (same, keeps t, sym e) (rw e (ground (arith, rest)))
      | inr other ↦ elim (Bool-cases (text_eq t.id y)) [
        | inl here ↦
            let e : t.id ≡ y = text_eq→≡ t.id y here in
            let apart : text_eq x y ≡ false = rw (sym e) (text_eq_sym x t.id ∙ other) in
            rw (other, here, apart) refl
        | inr there ↦ rw (other, there, rest) refl
      ]
    ]
