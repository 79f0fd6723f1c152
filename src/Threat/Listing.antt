-- ===== src/Threat/Listing.antt =====
-- The listing of the threats of a status misses none.
use net_audit.Threat.Store.{list_threats, same_status}
use net_audit.Threat.Store.{sort_latest}
use net_audit.Threat.Store.{insert_latest}
use net_audit.Threat.Store.{with_status_of}
use net_audit.Threat.{Threat, ThreatStatus}
use net_audit.Common.{
  ltb, Bool-cases, length, take, ℕ, zero, suc, ◌≤◌, ◌≡◌, refl, sym, ap, ◌∙◌, ◌⊎◌, inl, inr, true,
  List, [], ◌∷◌, ◌++◌, arith,
}

abbrev pub Mem : Threat → List Threat → Type 0
Mem t [] = ⊥
Mem t (u ∷ us) = (t ≡ u) ⊎ Mem t us

pub Mem-append_left : (t : Threat) (us vs : List Threat) → Mem t us → Mem t (us ++ vs)
Mem-append_left t [] vs m = absurd m
Mem-append_left t (u ∷ us) vs (inl e) = inl e
Mem-append_left t (u ∷ us) vs (inr m) = inr (Mem-append_left t us vs m)

pub Mem-append_right : (t : Threat) (us vs : List Threat) → Mem t vs → Mem t (us ++ vs)
Mem-append_right t [] vs m = m
Mem-append_right t (u ∷ us) vs m = inr (Mem-append_right t us vs m)

Mem-with_status_of :
    (t : Threat) (status : ThreatStatus) (ts : List Threat)
    → same_status t.status status ≡ true
    → Mem t ts
    → Mem t (with_status_of status ts)
unfolding with_status_of
Mem-with_status_of t status [] h m = absurd m
Mem-with_status_of t status (u ∷ us) h (inl e) =
    let here : same_status u.status status ≡ true = rw (sym e) h in rw here (inl e)
Mem-with_status_of t status (u ∷ us) h (inr m) =
    let rest = Mem-with_status_of t status us h m in
    elim (Bool-cases (same_status u.status status)) [
      | inl here ↦ rw here (inr rest)
      | inr other ↦ rw other rest
    ]

Mem-insert_latest_new : (t : Threat) (us : List Threat) → Mem t (insert_latest t us)
unfolding insert_latest
Mem-insert_latest_new t [] = inl refl
Mem-insert_latest_new t (u ∷ us) = elim (Bool-cases (ltb t.last_seen u.last_seen)) [
  | inl later ↦ rw later (inr (Mem-insert_latest_new t us))
  | inr first ↦ rw first (inl refl)
]

Mem-insert_latest_old : (t v : Threat) (us : List Threat) → Mem t us → Mem t (insert_latest v us)
unfolding insert_latest
Mem-insert_latest_old t v [] m = absurd m
Mem-insert_latest_old t v (u ∷ us) m = elim (Bool-cases (ltb v.last_seen u.last_seen)) [
  | inr first ↦ rw first (inr m)
  | inl later ↦ rw later (elim m [ inl e ↦ inl e | inr k ↦ inr (Mem-insert_latest_old t v us k) ])
]

Mem-sort_latest : (t : Threat) (ts : List Threat) → Mem t ts → Mem t (sort_latest ts)
unfolding sort_latest
Mem-sort_latest t [] m = absurd m
Mem-sort_latest t (u ∷ us) (inl e) = rw e (Mem-insert_latest_new u (sort_latest us))
Mem-sort_latest t (u ∷ us) (inr m) =
    Mem-insert_latest_old t u (sort_latest us) (Mem-sort_latest t us m)

length-insert_latest :
    (t : Threat) (us : List Threat) → length (insert_latest t us) ≡ suc (length us)
unfolding insert_latest
length-insert_latest t [] = refl
length-insert_latest t (u ∷ us) = ground (arith, length-insert_latest t us)

length-sort_latest : (ts : List Threat) → length (sort_latest ts) ≡ length ts
unfolding sort_latest
length-sort_latest [] = refl
length-sort_latest (t ∷ ts) =
    length-insert_latest t (sort_latest ts) ∙ ap suc (length-sort_latest ts)

length-with_status_of :
    (status : ThreatStatus) (ts : List Threat) → length (with_status_of status ts) ≤ length ts
unfolding with_status_of
length-with_status_of status [] = omega arith
length-with_status_of status (t ∷ ts) = ground (arith, length-with_status_of status ts)

take-short : (n : ℕ) (ts : List Threat) → length ts ≤ n → take n ts ≡ ts
take-short zero [] h = refl
take-short zero (t ∷ ts) h = absurd (omega arith)
take-short (suc n) [] h = refl
take-short (suc n) (t ∷ ts) h = ap (λ us. t ∷ us) (take-short n ts (omega arith))

-- Of at most a thousand threats, all of a status are listed.
pub Mem-list_threats :
    (t : Threat) (status : ThreatStatus) (ts : List Threat)
    → length ts ≤ 1000
    → same_status t.status status ≡ true
    → Mem t ts
    → Mem t (list_threats 1000 status ts)
unfolding list_threats
Mem-list_threats t status ts few h m =
    let found : List Threat = with_status_of status ts in
    let short : length (sort_latest found) ≤ 1000 =
      omega (arith, length-sort_latest found, length-with_status_of status ts, few) in
    rw (take-short 1000 (sort_latest found) short)
      (Mem-sort_latest t found (Mem-with_status_of t status ts h m))
