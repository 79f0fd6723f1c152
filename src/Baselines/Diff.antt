-- ===== src/Baselines/Diff.antt =====
-- baselines/service.py: `diff_baselines`, and the alert that monitor.py makes of a difference.
use net_audit.Baselines.Store.{get_baseline}
use net_audit.Common.Int.{sub_ℤ, is_negative}
use net_audit.Common.Int.{ℤ}
use net_audit.Baselines.{Listener}
use net_audit.Baselines.Snapshot.{text_ltb}
use net_audit.Baselines.{Baseline}
use net_audit.Baselines.Snapshot.{sorted_set}
use net_audit.Common.Text.{text_eq, codes}
use net_audit.Common.Text.{Text}
use net_audit.Baselines.{Check}
use net_audit.Common.{
  ltb, ◌==◌, if◌then◌else◌, any, ℕ, ◌+◌, Bool, true, false, not, ◌&&◌, ◌||◌, Option, none, some,
  List, [], ◌∷◌, ◌++◌, map,
}

-- {c["id"]: c["status"] for c in checks}: the last check with an id counts.
unfoldable pub status_of : List Check → Text → Option Text
status_of [] check_id = none
status_of (c ∷ cs) check_id = elim (status_of cs check_id) [
  | some status ↦ some status
  | none ↦ if text_eq c.check_id check_id then some c.status else none
]

abbrev pub ids_of : List Check → List Text
ids_of cs = map (λ c. c.check_id) cs

-- `_BADNESS`
unfoldable pub badness : Text → Option ℕ
badness status =
    if text_eq status (codes "pass")
    then some 0
    else if text_eq status (codes "warn")
    then some 1
    else if text_eq status (codes "fail")
    then some 2
    else none

pub record Transition : Type 0 where
  pub changed_id : Text
  pub old_status : Text
  pub new_status : Text

pub record ChecksDiff : Type 0 where
  pub fixed : List Transition
  pub regressed : List Transition
  pub unchanged_count : ℕ
  pub added : List Check
  pub removed : List Check
  pub inconclusive : List Transition

abbrev pub no_difference : ChecksDiff
no_difference = record {
  fixed = [];
  regressed = [];
  unchanged_count = 0;
  added = [];
  removed = [];
  inconclusive = [];
}

-- A change from one status to another, by their ranks.
abbrev pub by_rank : Option ℕ → Option ℕ → Transition → ChecksDiff → ChecksDiff
by_rank (some old_rank) (some new_rank) transition d =
    if ltb new_rank old_rank
    then record d { fixed = transition ∷ d.fixed }
    else record d { regressed = transition ∷ d.regressed }
by_rank _ _ transition d = record d { inconclusive = transition ∷ d.inconclusive }

unfoldable pub put_change : Text → Text → Text → ChecksDiff → ChecksDiff
unfolding text_eq badness
put_change check_id old_status new_status d =
    if text_eq old_status new_status
    then record d { unchanged_count = d.unchanged_count + 1 }
    else by_rank (badness old_status) (badness new_status)
        (record { changed_id = check_id; old_status = old_status; new_status = new_status }) d

-- What an id adds to the difference: on both sides, on one, or on none.
unfoldable pub put_id : Text → Option Text → Option Text → ChecksDiff → ChecksDiff
put_id check_id none none d = d
put_id check_id (some old_status) none d = record d {
  removed = record { check_id = check_id; status = old_status } ∷ d.removed;
}
put_id check_id none (some new_status) d = record d {
  added = record { check_id = check_id; status = new_status } ∷ d.added;
}
put_id check_id (some old_status) (some new_status) d = put_change check_id old_status new_status d

-- The ids in order; each of the three loops of the source takes those of its kind.
unfoldable pub diff_ids : List Check → List Check → List Text → ChecksDiff
diff_ids from to [] = no_difference
diff_ids from to (check_id ∷ ids) =
    put_id check_id (status_of from check_id) (status_of to check_id) (diff_ids from to ids)

unfoldable pub diff_checks : List Check → List Check → ChecksDiff
unfolding sorted_set
diff_checks from to = diff_ids from to (sorted_set (ids_of from ++ ids_of to))

abbrev pub mem_text : Text → List Text → Bool
mem_text s ts = any (text_eq s) ts

abbrev pub without : List Text → List Text → List Text
without seen [] = []
without seen (t ∷ ts) =
    let rest : List Text = without seen ts in if mem_text t seen then rest else t ∷ rest

unfoldable pub new_peers : Baseline → Baseline → List Text
new_peers from to = without from.peers (sorted_set to.peers)

-- The order of `(port, process)`.
unfoldable pub listener_ltb : Listener → Listener → Bool
unfolding text_ltb
listener_ltb a b = ltb a.port b.port || (a.port == b.port && text_ltb a.process b.process)

unfoldable pub listener_eq : Listener → Listener → Bool
unfolding text_eq
listener_eq a b = a.port == b.port && text_eq a.process b.process

unfoldable pub insert_listener : Listener → List Listener → List Listener
unfolding listener_ltb listener_eq
insert_listener a [] = a ∷ []
insert_listener a (b ∷ bs) =
    let rest : List Listener = insert_listener a bs in
    if listener_eq a b then b ∷ bs else if listener_ltb a b then a ∷ b ∷ bs else b ∷ rest

-- The listeners of the second list that are not in the first, in order, each once.
unfoldable pub listeners_beyond : List Listener → List Listener → List Listener
unfolding insert_listener
listeners_beyond seen [] = []
listeners_beyond seen (l ∷ ls) =
    let rest : List Listener = listeners_beyond seen ls in
    if any (listener_eq l) seen then rest else insert_listener l rest

abbrev pub threats_delta : Option ℤ → Option ℤ → ℤ
threats_delta (some old) (some new) = sub_ℤ new old
threats_delta _ _ = ℤ.pos 0

pub record BaselineDiff : Type 0 where
  pub posture_delta : ℤ
  pub threats_delta_of : ℤ
  pub overall_delta : ℤ
  pub check_changes : ChecksDiff
  pub added_peers : List Text
  pub new_listeners : List Listener
  pub removed_listeners : List Listener

unfoldable pub diff_records : Baseline → Baseline → BaselineDiff
unfolding sub_ℤ
diff_records from to = record {
  posture_delta = sub_ℤ to.posture_score from.posture_score;
  threats_delta_of = threats_delta from.threats_score to.threats_score;
  overall_delta = sub_ℤ to.overall_score from.overall_score;
  check_changes = diff_checks from.checks to.checks;
  added_peers = new_peers from to;
  new_listeners = listeners_beyond from.listeners to.listeners;
  removed_listeners = listeners_beyond to.listeners from.listeners;
}

abbrev pub diff_found : Option Baseline → Option Baseline → Option BaselineDiff
diff_found (some from) (some to) = some (diff_records from to)
diff_found _ _ = none

unfoldable pub diff_baselines : Text → Text → List Baseline → Option BaselineDiff
unfolding get_baseline
diff_baselines from_id to_id rows = diff_found (get_baseline from_id rows) (get_baseline to_id rows)

abbrev pub is_empty {ℓ} : {A : Type ℓ} → List A → Bool
is_empty [] = true
is_empty (a ∷ rest) = false

-- A category is named if its test holds.
abbrev pub named_if : Bool → Text → List Text → List Text
named_if test name rest = if test then name ∷ rest else rest

unfoldable pub alert_categories : BaselineDiff → List Text
alert_categories d =
    named_if (not (is_empty d.check_changes.regressed)) (codes "regressed checks") (
      named_if (is_negative d.overall_delta) (codes "overall score declined")
        (named_if (not (is_empty d.new_listeners)) (codes "new listeners") []))
