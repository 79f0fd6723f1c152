-- ===== src/Baselines/Retention.antt =====
-- What the monitor keeps: every manual baseline, and no scheduled one past the retention.
use mathlib.Core.Path.{subst}
use net_audit.Baselines.{Origin, manual, scheduled}
use net_audit.Baselines.Runs.{
  run_once-Run, behind_capture, held_back, not_due, not_captured, awake, captured_one,
  not_dispatched,
}
use net_audit.Baselines.Runs.{Run}
use net_audit.Common.Text.{Text}
use net_audit.Baselines.Runs.{scheduled_snapshot}
use net_audit.Baselines.Consistent.{Event, run_all, step, ran, rescheduled, woken}
use net_audit.Baselines.{Tables, is_scheduled}
use net_audit.Baselines.Monitor.{
  Monitor, MonitorResult, update_schedule, run_once, Alert, retention,
}
use net_audit.Baselines.Monitor.{wake}
use net_audit.Baselines.Monitor.{give_up}
use net_audit.Baselines.Monitor.{Surroundings}
use net_audit.Baselines.Monitor.{prune}
use net_audit.Baselines.Snapshot.{snapshot, Observation}
use net_audit.Baselines.Store.{
  mark_schedule_success, delete_scheduled_before, mark_schedule_error, is_outdated, save_schedule,
  is_allowed,
}
use net_audit.Baselines.Store.{remove_outdated}
use net_audit.Baselines.{Baseline}
use net_audit.Common.{
  if◌then◌else◌, Bool-cases, All, ℕ, ◌-◌, ◌≡◌, refl, ap, ◌∙◌, inl, inr, true, false, List, [], ◌∷◌,
  ◌++◌, arith, ◌⊎◌, ◌+◌, ◌≤◌, ◌<◌,
}

unfoldable pub manual_rows : List Baseline → List Baseline
manual_rows [] = []
manual_rows (b ∷ rows) =
    let rest : List Baseline = manual_rows rows in if is_scheduled b.origin then rest else b ∷ rest

manual_rows-append :
    (rows : List Baseline) (b : Baseline)
    → is_scheduled b.origin ≡ true
    → manual_rows (rows ++ (b ∷ [])) ≡ manual_rows rows
unfolding manual_rows
manual_rows-append [] b h = rw h refl
manual_rows-append (r ∷ rows) b h = rw (manual_rows-append rows b h) refl

manual_rows-remove_outdated :
    (cutoff : ℕ) (rows : List Baseline)
    → manual_rows (remove_outdated cutoff rows) ≡ manual_rows rows
unfolding manual_rows remove_outdated
manual_rows-remove_outdated cutoff [] = refl
manual_rows-remove_outdated cutoff (r ∷ rows) =
    ground (arith, manual_rows-remove_outdated cutoff rows)

mark_keeps_rows : (now : ℕ) (t : Tables) → (mark_schedule_success now t).baselines ≡ t.baselines
unfolding mark_schedule_success
mark_keeps_rows now t = ground arith

snapshot_scheduled :
    (w : Surroundings) (seen : Observation) → is_scheduled (scheduled_snapshot w seen).origin ≡ true
unfolding snapshot
snapshot_scheduled w seen = refl

behind_capture_rows :
    (w : Surroundings) (seen : Observation) (alerts : List Alert) (m : Monitor)
    → (behind_capture w seen alerts m).tables.baselines
      ≡ remove_outdated (w.now - retention) (m.tables.baselines ++ (scheduled_snapshot w seen ∷ []))
unfolding prune delete_scheduled_before
behind_capture_rows w seen alerts m =
    rw
      (mark_keeps_rows w.now
        (record m.tables { baselines = m.tables.baselines ++ (scheduled_snapshot w seen ∷ []) }))
      refl

behind_capture-manual_rows :
    (w : Surroundings) (seen : Observation) (alerts : List Alert) (m : Monitor)
    → manual_rows (behind_capture w seen alerts m).tables.baselines ≡ manual_rows m.tables.baselines
behind_capture-manual_rows w seen alerts m =
    rw
      (
        behind_capture_rows w seen alerts m,
        manual_rows-remove_outdated (w.now - retention)
            (m.tables.baselines ++ (scheduled_snapshot w seen ∷ [])),
      )
      (manual_rows-append m.tables.baselines (scheduled_snapshot w seen)
        (snapshot_scheduled w seen))

give_up_keeps_rows :
    (now : ℕ) (error : Text) (m : Monitor)
    → (give_up now error m).1.tables.baselines ≡ m.tables.baselines
unfolding give_up mark_schedule_error
give_up_keeps_rows now error m = refl

Run-manual_rows :
    (w : Surroundings) (m : Monitor) (r : MonitorResult × Monitor)
    → Run w m r
    → manual_rows r.1.tables.baselines ≡ manual_rows m.tables.baselines
Run-manual_rows w m r (held_back held) = refl
Run-manual_rows w m r (not_due early) = refl
Run-manual_rows w m r (not_captured error due) =
    ap manual_rows (give_up_keeps_rows w.now error (awake m))
Run-manual_rows w m r (captured_one seen alerted alerts due free) =
    behind_capture-manual_rows w seen alerts m
Run-manual_rows w m r (not_dispatched seen error due free) =
    ap manual_rows (give_up_keeps_rows w.now error (behind_capture w seen m.alerts m))
    ∙ behind_capture-manual_rows w seen m.alerts m

step-manual_rows :
    (m : Monitor) (e : Event)
    → manual_rows (step m e).tables.baselines ≡ manual_rows m.tables.baselines
unfolding wake update_schedule save_schedule
step-manual_rows m (ran w) = Run-manual_rows w m (run_once w m) (run_once-Run w m)
step-manual_rows m woken = refl
step-manual_rows m (rescheduled enabled interval_hours) =
    elim (Bool-cases (is_allowed interval_hours)) [
      | inl allowed ↦ rw allowed refl
      | inr refused ↦ rw refused refl
    ]

-- No sequence of runs, wake-up calls and changes of the schedule loses, changes or reorders a baseline
-- that was taken by hand.
pub run_all-manual_rows :
    (m : Monitor) (es : List Event)
    → manual_rows (run_all m es).tables.baselines ≡ manual_rows m.tables.baselines
run_all-manual_rows m [] = refl
run_all-manual_rows m (e ∷ es) = run_all-manual_rows (step m e) es ∙ step-manual_rows m e

abbrev pub IsAmong : Baseline → List Baseline → Type 0
IsAmong b [] = ⊥
IsAmong b (x ∷ xs) = (b ≡ x) ⊎ IsAmong b xs

-- A baseline that was taken by hand, or not more than 90 days ago (in milliseconds).
abbrev pub IsRecent : ℕ → Baseline → Type 0
IsRecent now b = (b.origin ≡ manual) ⊎ (now ≤ b.captured_at + 7776000000)

abbrev pub IsExpired : ℕ → Baseline → Type 0
IsExpired now b = (b.origin ≡ scheduled) × (b.captured_at + 7776000000 < now)

-- Only recent baselines are left, and of those there were, only the expired ones are gone.
abbrev pub IsPruned : ℕ → List Baseline → List Baseline → Type 0
IsPruned now before after =
    All (IsRecent now) after × All (λ b. IsExpired now b ⊎ IsAmong b after) before

Origin-cases : (o : Origin) → (o ≡ manual) ⊎ (o ≡ scheduled)
Origin-cases manual = inl refl
Origin-cases scheduled = inr refl

is_outdated-IsExpired :
    (now : ℕ) (b : Baseline) → is_outdated (now - retention) b ≡ true → IsExpired now b
is_outdated-IsExpired now b h = elim (Origin-cases b.origin) [
  | inl by_hand ↦ ground arith
  | inr regular ↦ (regular, ground arith)
]

is_outdated-IsRecent :
    (now : ℕ) (b : Baseline) → is_outdated (now - retention) b ≡ false → IsRecent now b
is_outdated-IsRecent now b h = elim (Origin-cases b.origin) [
  | inl by_hand ↦ inl by_hand
  | inr regular ↦ inr (ground arith)
]

remove_outdated-IsRecent :
    (now : ℕ) (rows : List Baseline) → All (IsRecent now) (remove_outdated (now - retention) rows)
unfolding remove_outdated
remove_outdated-IsRecent now [] = tt
remove_outdated-IsRecent now (r ∷ rows) = elim (Bool-cases (is_outdated (now - retention) r)) [
  | inl old ↦ rw old (remove_outdated-IsRecent now rows)
  | inr recent ↦ rw recent (is_outdated-IsRecent now r recent, remove_outdated-IsRecent now rows)
]

remove_outdated-IsAmong :
    (cutoff : ℕ) (b : Baseline) (rows : List Baseline)
    → is_outdated cutoff b ≡ false
    → IsAmong b rows
    → IsAmong b (remove_outdated cutoff rows)
unfolding remove_outdated
remove_outdated-IsAmong cutoff b [] recent m = m
remove_outdated-IsAmong cutoff b (r ∷ rows) recent m = elim m [
  | inl here ↦
      let kept : is_outdated cutoff r ≡ false =
        subst (λ x. is_outdated cutoff x ≡ false) here recent in
      rw kept (inl here)
  | inr later ↦
      let rest = remove_outdated-IsAmong cutoff b rows recent later in
      elim (Bool-cases (is_outdated cutoff r)) [
        | inl old ↦ rw old rest
        | inr kept ↦ rw kept (inr rest)
      ]
]

IsAmong-append : (b : Baseline) (xs ys : List Baseline) → IsAmong b xs → IsAmong b (xs ++ ys)
IsAmong-append b [] ys m = absurd m
IsAmong-append b (x ∷ xs) ys (inl e) = inl e
IsAmong-append b (x ∷ xs) ys (inr m) = inr (IsAmong-append b xs ys m)

All-weaken :
    {P Q : Baseline → Type 0}
    → ((b : Baseline) → P b → Q b)
    → (xs : List Baseline) → All P xs
    → All Q xs
All-weaken f [] h = tt
All-weaken f (x ∷ xs) h = (f x h.0, All-weaken f xs h.1)

each-IsAmong : (xs : List Baseline) → All (λ b. IsAmong b xs) xs
each-IsAmong [] = tt
each-IsAmong (x ∷ xs) = (inl refl, All-weaken (λ b m. inr m) xs (each-IsAmong xs))

remove_outdated-IsPruned :
    (now : ℕ) (rows more : List Baseline)
    → IsPruned now rows (remove_outdated (now - retention) (rows ++ more))
remove_outdated-IsPruned now rows more = (
  remove_outdated-IsRecent now (rows ++ more),
  All-weaken
      (λ b m. elim (Bool-cases (is_outdated (now - retention) b)) [
        | inl old ↦ inl (is_outdated-IsExpired now b old)
        | inr kept ↦ inr (
            remove_outdated-IsAmong (now - retention) b (rows ++ more) kept
              (IsAmong-append b rows more m))
      ])
      rows (each-IsAmong rows),
)

Run-IsPruned :
    (w : Surroundings) (m : Monitor) (r : MonitorResult × Monitor)
    → r.0.captured ≡ true
    → Run w m r
    → IsPruned w.now m.tables.baselines r.1.tables.baselines
Run-IsPruned w m r c (held_back held) = cc
Run-IsPruned w m r c (not_due early) = cc
Run-IsPruned w m r c (not_captured error due) = unfold give_up in cc
Run-IsPruned w m r c (captured_one seen alerted alerts due free) =
    rw (behind_capture_rows w seen alerts m)
      (remove_outdated-IsPruned w.now m.tables.baselines (scheduled_snapshot w seen ∷ []))
Run-IsPruned w m r c (not_dispatched seen error due free) = unfold give_up in cc

-- Behind a run that captured, every baseline was taken by hand or is not more than 90 days old; and each
-- baseline of before is still there, or was a scheduled one of more than 90 days ago.
pub run_once-IsPruned :
    (w : Surroundings) (m : Monitor)
    → (run_once w m).0.captured ≡ true
    → IsPruned w.now m.tables.baselines (run_once w m).1.tables.baselines
run_once-IsPruned w m captured = Run-IsPruned w m (run_once w m) captured (run_once-Run w m)
