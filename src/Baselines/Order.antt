-- ===== src/Baselines/Order.antt =====
-- The order of texts, and sorted sets of them: the order of insertion does not matter.
use net_audit.Baselines.Snapshot.{sorted_set}
use net_audit.Baselines.Snapshot.{insert_text}
use net_audit.Common.Text.{Text, text_eq, text_eq_refl, text_eq_sym, text_eq→≡}
use net_audit.Baselines.Snapshot.{text_ltb}
use net_audit.Common.{
  ◌≡◌, refl, sym, ap, ◌∙◌, ◌⊎◌, inl, inr, true, false, List, [], ◌∷◌, ◌++◌, arith,
}

text_ltb_trans : (s t u : Text) → text_ltb s t ≡ true → text_ltb t u ≡ true → text_ltb s u ≡ true
unfolding text_ltb
text_ltb_trans s [] u h k = cc
text_ltb_trans s (b ∷ t) [] h k = cc
text_ltb_trans [] (b ∷ t) (c ∷ u) h k = refl
text_ltb_trans (a ∷ s) (b ∷ t) (c ∷ u) h k = ground (arith, text_ltb_trans s t u)

text_ltb-asym : (s t : Text) → text_ltb s t ≡ true → text_ltb t s ≡ false
unfolding text_ltb
text_ltb-asym s [] h = cc
text_ltb-asym [] (b ∷ t) h = refl
text_ltb-asym (a ∷ s) (b ∷ t) h = ground (arith, text_ltb-asym s t)

text_ltb_irrefl : (s : Text) → text_ltb s s ≡ false
unfolding text_ltb
text_ltb_irrefl [] = refl
text_ltb_irrefl (a ∷ s) = ground (arith, text_ltb_irrefl s)

text_ltb-total : (s t : Text) → text_eq s t ≡ false → text_ltb s t ≡ false → text_ltb t s ≡ true
unfolding text_ltb text_eq
text_ltb-total [] [] h k = cc
text_ltb-total [] (b ∷ t) h k = cc
text_ltb-total (a ∷ s) [] h k = refl
text_ltb-total (a ∷ s) (b ∷ t) h k = ground (arith, text_ltb-total s t)

-- Two texts are the same, or one is the smaller.
text-cases :
    (s t : Text)
    → (s ≡ t)
      ⊎ (((text_eq s t ≡ false) × (text_ltb s t ≡ true))
          ⊎ ((text_eq s t ≡ false) × (text_ltb s t ≡ false) × (text_ltb t s ≡ true)))
text-cases s t = ground (arith, text_eq→≡ s t, text_ltb-total s t)

insert_same : (s : Text) (ts : List Text) → insert_text s (insert_text s ts) ≡ insert_text s ts
unfolding insert_text
insert_same s [] = ground (arith, text_eq_refl s)
insert_same s (t ∷ ts) = ground (arith, text_eq_refl s, insert_same s ts)

-- One of the two steps of the swap: `s` is the smaller.
insert_smaller :
    (s t : Text) (us : List Text)
    → text_eq s t ≡ false
    → text_ltb s t ≡ true
    → insert_text s (insert_text t us) ≡ insert_text t (insert_text s us)
unfolding insert_text
insert_smaller s t [] d h = ground (arith, text_ltb-asym s t, text_eq_sym s t)
insert_smaller s t (u ∷ us) d h = ground (
  arith,
  insert_smaller s t us d h,
  text_ltb-asym s t,
  text_eq_sym s t,
  text_ltb_trans s t u,
  text_ltb_trans u s t,
  text_ltb-asym u t,
  text_eq→≡ s u,
  text_eq→≡ t u,
  text_ltb-total s u,
)

insert_text_comm :
    (s t : Text) (us : List Text)
    → insert_text s (insert_text t us) ≡ insert_text t (insert_text s us)
insert_text_comm s t us = elim (text-cases s t) [
  | inl same ↦ rw same refl
  | inr (inl (d, less)) ↦ insert_smaller s t us d less
  | inr (inr (d, _, more)) ↦ sym (insert_smaller t s us (sym (text_eq_sym s t) ∙ d) more)
]

sorted_set-insert :
    (s : Text) (ts us : List Text)
    → sorted_set (ts ++ (s ∷ us)) ≡ insert_text s (sorted_set (ts ++ us))
unfolding sorted_set
sorted_set-insert s [] us = refl
sorted_set-insert s (t ∷ ts) us =
    rw (sorted_set-insert s ts us) (insert_text_comm t s (sorted_set (ts ++ us)))

append-nil : (ts : List Text) → ts ++ [] ≡ ts
append-nil [] = refl
append-nil (t ∷ ts) = ap (λ r. t ∷ r) (append-nil ts)

pub sorted_set-append_comm : (ts us : List Text) → sorted_set (ts ++ us) ≡ sorted_set (us ++ ts)
unfolding sorted_set
sorted_set-append_comm [] us = ap sorted_set (sym (append-nil us))
sorted_set-append_comm (t ∷ ts) us =
    ap (insert_text t) (sorted_set-append_comm ts us) ∙ sym (sorted_set-insert t us ts)
