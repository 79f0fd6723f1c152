-- ===== src/Baselines/Store.antt =====
-- baselines/store.py: the tables of baselines and of the schedule.
use net_audit.Baselines.{Baseline, Attempt, is_scheduled, done, failed}
use net_audit.Common.Text.{Text, text_eq, codes}
use net_audit.Baselines.{Tables}
use net_audit.Common.{
  ltb, leb, ◌==◌, if◌then◌else◌, any, ℕ, Bool, true, false, not, ◌&&◌, Option, none, some, List, [],
  ◌∷◌, ◌++◌,
}

abbrev pub allowed_interval_hours : List ℕ
allowed_interval_hours = 6 ∷ 12 ∷ 24 ∷ 48 ∷ 168 ∷ []

abbrev pub is_allowed : ℕ → Bool
is_allowed hours = any (λ h. h == hours) allowed_interval_hours

-- The schedule row that the schema is created with.
abbrev pub empty_tables : Tables
empty_tables = record {
  baselines = [];
  schedule = record {
    enabled = false;
    interval_hours = 24;
    last_succeeded_at = none;
    last_error = none;
  };
}

unfoldable pub get_baseline : Text → List Baseline → Option Baseline
get_baseline baseline_id [] = none
get_baseline baseline_id (b ∷ rows) =
    if text_eq b.id baseline_id then some b else get_baseline baseline_id rows

-- ORDER BY captured_at DESC
unfoldable pub insert_latest : Baseline → List Baseline → List Baseline
insert_latest b [] = b ∷ []
insert_latest b (row ∷ rows) =
    if ltb b.captured_at row.captured_at then row ∷ insert_latest b rows else b ∷ row ∷ rows

unfoldable pub list_baselines : List Baseline → List Baseline
unfolding insert_latest
list_baselines [] = []
list_baselines (b ∷ rows) = insert_latest b (list_baselines rows)

abbrev pub after_last : Option ℕ → ℕ → Bool
after_last none captured_at = true
after_last (some last) captured_at = leb last captured_at

-- `_mark_schedule_success`: a success is recorded unless a later one is.
unfoldable pub mark_schedule_success : ℕ → Tables → Tables
mark_schedule_success captured_at t =
    if after_last t.schedule.last_succeeded_at captured_at
    then record t {
      schedule = record t.schedule { last_succeeded_at = some captured_at; last_error = none };
    }
    else t

unfoldable pub mark_schedule_error : Text → Tables → Tables
mark_schedule_error error t = record t { schedule = record t.schedule { last_error = some error } }

unfoldable pub save_schedule : Bool → ℕ → Tables → Attempt Tables
save_schedule enabled interval_hours t =
    if is_allowed interval_hours
    then done (record t {
      schedule = record t.schedule { enabled = enabled; interval_hours = interval_hours };
    })
    else failed (codes "interval_hours must be one of 6, 12, 24, 48, or 168")

-- The primary key of the table.
abbrev pub id_taken : Text → List Baseline → Bool
id_taken baseline_id rows = any (λ b. text_eq b.id baseline_id) rows

-- INSERT and, in the same transaction, the mark of the schedule. A key that is taken fails, and leaves
-- the tables as they are.
abbrev pub insert_row : Baseline → Bool → Tables → Attempt Tables
insert_row b mark t =
    if id_taken b.id t.baselines
    then failed (codes "UNIQUE constraint failed: baselines.id")
    else done (
        let added : Tables = record t { baselines = t.baselines ++ (b ∷ []) } in
        if mark then mark_schedule_success b.captured_at added else added)

unfoldable pub insert_baseline : Baseline → Bool → Tables → Attempt Tables
unfolding mark_schedule_success
insert_baseline b mark t =
    if mark && not (is_scheduled b.origin)
    then failed (codes "only scheduled baselines can mark schedule success")
    else insert_row b mark t

-- The later of two; of two that were captured at the same instant, the first inserted.
abbrev pub later : Baseline → Option Baseline → Baseline
later b none = b
later b (some c) = if ltb b.captured_at c.captured_at then c else b

unfoldable pub get_most_recent_scheduled_baseline : List Baseline → Option Baseline
get_most_recent_scheduled_baseline [] = none
get_most_recent_scheduled_baseline (b ∷ rows) =
    let rest : Option Baseline = get_most_recent_scheduled_baseline rows in
    if is_scheduled b.origin then some (later b rest) else rest

abbrev pub is_outdated : ℕ → Baseline → Bool
is_outdated cutoff b = is_scheduled b.origin && ltb b.captured_at cutoff

unfoldable pub remove_outdated : ℕ → List Baseline → List Baseline
remove_outdated cutoff [] = []
remove_outdated cutoff (b ∷ rows) =
    let rest : List Baseline = remove_outdated cutoff rows in
    if is_outdated cutoff b then rest else b ∷ rest

unfoldable pub delete_scheduled_before : ℕ → Tables → Tables
unfolding remove_outdated
delete_scheduled_before cutoff t = record t { baselines = remove_outdated cutoff t.baselines }
