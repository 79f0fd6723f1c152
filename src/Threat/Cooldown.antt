-- ===== src/Threat/Cooldown.antt =====
-- Behind a run of the engine no stale threat is open.
use net_audit.Threat.Listing.{Mem, Mem-append_left, Mem-list_threats, Mem-append_right}
use net_audit.Threat.Store.{same_status, set_status, update_threat, list_threats}
use net_audit.Common.Text.{Text, text_eq, text_eq_refl}
use net_audit.Threat.Engine.{
  run_once, Progress, Reports, is_touched, cool, run_detectors, when_run, is_overdue,
}
use net_audit.Threat.Engine.{apply_cooldowns}
use net_audit.Threat.Engine.{MakeId}
use net_audit.Threat.Engine.{Engine}
use net_audit.Threat.{Threat, resolved, active, acknowledged}
use net_audit.Threat.Engine.{Runtime}
use net_audit.Common.{
  Bool-cases, length, All, ℕ, ◌≤◌, ◌≡◌, refl, ◌⊎◌, inl, inr, Bool, true, false, not, ◌&&◌, ◌||◌,
  none, List, [], ◌∷◌, ◌++◌, arith,
}

-- A threat that is resolved, was touched by the run, or whose cooldown is not over.
abbrev pub is_settled : List Runtime → ℕ → List Text → Threat → Bool
is_settled rs now ids t =
    same_status t.status resolved || (is_touched t.id ids || not (is_overdue rs now t))

differ : (t u : Threat) → t ≡ u → text_eq t.id u.id ≡ false → ⊥
differ t u e h = let same : text_eq t.id u.id ≡ true = rw e (text_eq_refl u.id) in ground arith

status-cases :
    (t : Threat)
    → (same_status t.status resolved ≡ true)
      ⊎ ((same_status t.status active ≡ true) ⊎ (same_status t.status acknowledged ≡ true))
status-cases t = ground arith

abbrev Pending : List Runtime → ℕ → List Text → List Threat → List Threat → Type 0
Pending rs now ids listed ts = All (λ t. (is_settled rs now ids t ≡ true) ⊎ Mem t listed) ts

module _ (rs : List Runtime) (now : ℕ) (ids : List Text) where
  set_status-Pending :
      (u : Threat) (listed ts : List Threat)
      → Pending rs now ids (u ∷ listed) ts
      → Pending rs now ids listed (set_status u.id resolved ts)
  unfolding set_status update_threat
  set_status-Pending u listed [] h = tt
  set_status-Pending u listed (t ∷ ts) h =
      let rest = set_status-Pending u listed ts h.1 in
      elim (Bool-cases (text_eq t.id u.id)) [
        | inl same ↦ rw same (inl refl, rest)
        | inr other ↦ rw other (elim h.0 [
          | inl settled ↦ (inl settled, rest)
          | inr (inl e) ↦ absurd (differ t u e other)
          | inr (inr m) ↦ (inr m, rest)
        ])
      ]

  skip-Pending :
      (u : Threat) (listed ts : List Threat)
      → (not (is_touched u.id ids) && is_overdue rs now u) ≡ false
      → Pending rs now ids (u ∷ listed) ts
      → Pending rs now ids listed ts
  skip-Pending u listed [] spared h = tt
  skip-Pending u listed (t ∷ ts) spared h =
      let rest = skip-Pending u listed ts spared h.1 in
      elim h.0 [
        | inl settled ↦ (inl settled, rest)
        | inr (inl e) ↦ (inl (rw e (ground arith)), rest)
        | inr (inr m) ↦ (inr m, rest)
      ]

  none-Pending :
      (ts : List Threat) → Pending rs now ids [] ts → All (λ t. is_settled rs now ids t ≡ true) ts
  none-Pending [] h = tt
  none-Pending (t ∷ ts) h = elim h.0 [
    | inl settled ↦ (settled, none-Pending ts h.1)
    | inr m ↦ absurd m
  ]

  cool-settled :
      (listed ts : List Threat)
      → Pending rs now ids listed ts
      → All (λ t. is_settled rs now ids t ≡ true) (cool rs now ids listed ts)
  unfolding cool
  cool-settled [] ts h = none-Pending ts h
  cool-settled (u ∷ listed) ts h =
      elim (Bool-cases (not (is_touched u.id ids) && is_overdue rs now u)) [
        | inl stale ↦
            rw stale
              (cool-settled listed (set_status u.id resolved ts) (set_status-Pending u listed ts h))
        | inr spared ↦ rw spared (cool-settled listed ts (skip-Pending u listed ts spared h))
      ]

  all-Pending :
      (ts us : List Threat)
      → length ts ≤ 1000
      → ((t : Threat) → Mem t us → Mem t ts)
      → Pending rs now ids (list_threats 1000 active ts ++ list_threats 1000 acknowledged ts) us
  all-Pending ts [] few inside = tt
  all-Pending ts (t ∷ us) few inside =
      let open_ones : List Threat = list_threats 1000 active ts in
      let seen_ones : List Threat = list_threats 1000 acknowledged ts in
      let rest = all-Pending ts us few (λ u m. inside u (inr m)) in
      elim (status-cases t) [
        | inl done_with ↦ (inl (rw done_with refl), rest)
        | inr (inl h) ↦ (
          inr (
              Mem-append_left t open_ones seen_ones
                (Mem-list_threats t active ts few h (inside t (inl refl)))),
          rest,
        )
        | inr (inr h) ↦ (
          inr (
              Mem-append_right t open_ones seen_ones
                (Mem-list_threats t acknowledged ts few h (inside t (inl refl)))),
          rest,
        )
      ]

-- Each threat is resolved, was reported by the run, or is within its cooldown.
abbrev pub IsSettled : Engine → ℕ → Progress → Type 0
IsSettled e now p = All (λ t. is_settled p.after now p.touched t ≡ true) e.tables.threats

abbrev pub progress : MakeId → Reports → ℕ → Engine → Progress
progress make_id reports now e = run_detectors make_id reports now e.runtimes e.saved e.tables

when_run-IsSettled :
    (now : ℕ) (p : Progress)
    → p.raised ≡ none
    → length p.rows.threats ≤ 1000
    → IsSettled (when_run now p p.raised).1 now p
unfolding apply_cooldowns
when_run-IsSettled now p quiet few = rw quiet (
    cool-settled p.after now p.touched
      (list_threats 1000 active p.rows.threats ++ list_threats 1000 acknowledged p.rows.threats)
      p.rows.threats
      (all-Pending p.after now p.touched p.rows.threats p.rows.threats few (λ t m. m)))

-- Behind a run of the engine, if no detector raised and the table holds at most a thousand threats
-- with the findings of the run, each threat is resolved, was reported by the run, or is still within
-- its detector's cooldown.
pub run_once-IsSettled :
    (make_id : MakeId) (reports : Reports) (now : ℕ) (e : Engine)
    → (progress make_id reports now e).raised ≡ none
    → length (progress make_id reports now e).rows.threats ≤ 1000
    → IsSettled (run_once make_id reports now e).1 now (progress make_id reports now e)
unfolding run_once
run_once-IsSettled make_id reports now e quiet few =
    when_run-IsSettled now (progress make_id reports now e) quiet few
