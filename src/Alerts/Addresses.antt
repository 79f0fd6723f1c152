-- ===== src/Alerts/Addresses.antt =====
-- alerts/webhook.py: the sorted list of a set of addresses.
use net_audit.Alerts.Webhook.{sorted_set}
use net_audit.Alerts.Webhook.{insert_ip}
use net_audit.Common.Text.{Text, text_eq, text_eq→≡, text_ltb}
use mathlib.Core.Path.{subst}
use net_audit.Common.{Bool-cases, All, ◌≡◌, refl, sym, ◌⊎◌, inl, inr, List, [], ◌∷◌}

abbrev pub IsAmong : Text → List Text → Type 0
IsAmong ip [] = ⊥
IsAmong ip (x ∷ xs) = (ip ≡ x) ⊎ IsAmong ip xs

-- What inserting does at the first address.
insert_ip-cases :
    (x y : Text) (ys : List Text)
    → ((insert_ip x (y ∷ ys) ≡ y ∷ ys) × (x ≡ y))
      ⊎ ((insert_ip x (y ∷ ys) ≡ x ∷ y ∷ ys) ⊎ (insert_ip x (y ∷ ys) ≡ y ∷ insert_ip x ys))
unfolding insert_ip
insert_ip-cases x y ys = elim (Bool-cases (text_eq x y)) [
  | inl same ↦ inl (rw (same) refl, text_eq→≡ x y same)
  | inr other ↦ elim (Bool-cases (text_ltb x y)) [
    | inl before ↦ inr (inl (rw (other, before) refl))
    | inr behind ↦ inr (inr (rw (other, behind) refl))
  ]
]

module _ (P : Text → Type 0) where
  insert_ip-All : (x : Text) (xs : List Text) → P x → All P xs → All P (insert_ip x xs)
  unfolding insert_ip
  insert_ip-All x [] h hs = (h, tt)
  insert_ip-All x (y ∷ ys) h hs = elim (insert_ip-cases x y ys) [
    | inl (e, same) ↦ subst (All P) (sym e) hs
    | inr (inl e) ↦ subst (All P) (sym e) (h, hs)
    | inr (inr e) ↦ subst (All P) (sym e) (hs.0, insert_ip-All x ys h hs.1)
  ]

  pub sorted_set-All : (xs : List Text) → All P xs → All P (sorted_set xs)
  unfolding sorted_set
  sorted_set-All [] hs = tt
  sorted_set-All (x ∷ xs) hs = insert_ip-All x (sorted_set xs) hs.0 (sorted_set-All xs hs.1)

  All-insert_ip : (x : Text) (xs : List Text) → All P (insert_ip x xs) → P x × All P xs
  unfolding insert_ip
  All-insert_ip x [] h = h
  All-insert_ip x (y ∷ ys) h = elim (insert_ip-cases x y ys) [
    | inl (e, same) ↦ let h' : P y × All P ys = subst (All P) e h in (subst P (sym same) h'.0, h')
    | inr (inl e) ↦ subst (All P) e h
    | inr (inr e) ↦
        let h' : P y × All P (insert_ip x ys) = subst (All P) e h in
        let (here, rest) = All-insert_ip x ys h'.1 in (here, (h'.0, rest))
  ]

  pub All-sorted_set : (xs : List Text) → All P (sorted_set xs) → All P xs
  unfolding sorted_set
  All-sorted_set [] h = h
  All-sorted_set (x ∷ xs) h =
      let (here, rest) = All-insert_ip x (sorted_set xs) h in (here, All-sorted_set xs rest)

IsAmong-insert_ip :
    (ip x : Text) (xs : List Text) → IsAmong ip (insert_ip x xs) → IsAmong ip (x ∷ xs)
unfolding insert_ip
IsAmong-insert_ip ip x [] m = m
IsAmong-insert_ip ip x (y ∷ ys) m = elim (insert_ip-cases x y ys) [
  | inl (e, same) ↦ inr (subst (IsAmong ip) e m)
  | inr (inl e) ↦ subst (IsAmong ip) e m
  | inr (inr e) ↦
      let m' : (ip ≡ y) ⊎ IsAmong ip (insert_ip x ys) = subst (IsAmong ip) e m in
      elim m' [
        | inl here ↦ inr (inl here)
        | inr later ↦ elim (IsAmong-insert_ip ip x ys later) [
          | inl here ↦ inl here
          | inr there ↦ inr (inr there)
        ]
      ]
]

pub IsAmong-sorted_set : (ip : Text) (xs : List Text) → IsAmong ip (sorted_set xs) → IsAmong ip xs
unfolding sorted_set
IsAmong-sorted_set ip [] m = m
IsAmong-sorted_set ip (x ∷ xs) m = elim (IsAmong-insert_ip ip x (sorted_set xs) m) [
  | inl here ↦ inl here
  | inr later ↦ inr (IsAmong-sorted_set ip xs later)
]

pub insert_ip-first :
    (x : Text) (xs : List Text) → (y : Text) × ((ys : List Text) × (insert_ip x xs ≡ y ∷ ys))
unfolding insert_ip
insert_ip-first x [] = (x, ([], refl))
insert_ip-first x (y ∷ ys) = elim (insert_ip-cases x y ys) [
  | inl (e, same) ↦ (y, (ys, e))
  | inr (inl e) ↦ (x, (y ∷ ys, e))
  | inr (inr e) ↦ (y, (insert_ip x ys, e))
]
