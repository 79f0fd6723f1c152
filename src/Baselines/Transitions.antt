-- ===== src/Baselines/Transitions.antt =====
-- Differences of snapshots: comparing the other way round turns a difference round.
use net_audit.Baselines.Snapshot.{sorted_set}
use net_audit.Baselines.Order.{sorted_set-append_comm}
use net_audit.Baselines.{Check}
use net_audit.Baselines.Diff.{diff_checks, status_of, ids_of}
use net_audit.Baselines.Diff.{diff_ids}
use net_audit.Baselines.Diff.{put_id}
use net_audit.Baselines.Diff.{put_change}
use net_audit.Common.Text.{Text, text_eq→≡, text_eq, codes, text_eq_refl, text_eq_sym}
use net_audit.Baselines.Diff.{ChecksDiff}
use net_audit.Baselines.Diff.{Transition}
use net_audit.Baselines.Diff.{badness}
use net_audit.Common.{
  Bool-cases, some-cases, ℕ, ◌≡◌, refl, ◌≢◌, inl, inr, true, false, Option, none, some, List, [],
  ◌∷◌, ◌++◌, map, arith,
}

-- Only one status has a rank.
badness_injective : (s t : Text) (r : ℕ) → badness s ≡ some r → badness t ≡ some r → s ≡ t
unfolding badness
badness_injective s t r h k = ground (
  arith,
  text_eq→≡ s (codes "pass"),
  text_eq→≡ s (codes "warn"),
  text_eq→≡ s (codes "fail"),
  text_eq→≡ t (codes "pass"),
  text_eq→≡ t (codes "warn"),
  text_eq→≡ t (codes "fail"),
)

-- A transition, and a difference, read in the other direction.
abbrev pub turn : Transition → Transition
turn c = record { changed_id = c.changed_id; old_status = c.new_status; new_status = c.old_status }

abbrev pub turn_round : ChecksDiff → ChecksDiff
turn_round d = record {
  fixed = map turn d.regressed;
  regressed = map turn d.fixed;
  unchanged_count = d.unchanged_count;
  added = d.removed;
  removed = d.added;
  inconclusive = map turn d.inconclusive;
}

different_rank :
    (s t : Text) (r q : ℕ) → text_eq s t ≡ false → badness s ≡ some r → badness t ≡ some q → r ≢ q
different_rank s t r q d h k e =
    let same : s ≡ t = badness_injective s t r h (rw e k) in
    let contrary : text_eq s t ≡ true = rw same (text_eq_refl t) in cc

put_change-turn_round :
    (check_id old new : Text) (d : ChecksDiff)
    → put_change check_id new old (turn_round d) ≡ turn_round (put_change check_id old new d)
unfolding put_change
put_change-turn_round check_id old new d = elim (Bool-cases (text_eq old new)) [
  | inl same ↦ rw (text_eq_sym new old, same) refl
  | inr differ ↦ elim (some-cases (badness old)) [
    | inl e ↦ elim (some-cases (badness new)) [
      | inl f ↦ rw (text_eq_sym new old, differ, e, f) refl
      | inr (q, f) ↦ rw (text_eq_sym new old, differ, e, f) refl
    ]
    | inr (r, e) ↦ elim (some-cases (badness new)) [
      | inl f ↦ rw (text_eq_sym new old, differ, e, f) refl
      | inr (q, f) ↦
          let distinct : r ≢ q = different_rank old new r q differ e f in
          rw (text_eq_sym new old, differ, e, f) (ground arith)
    ]
  ]
]

put_id-turn_round :
    (check_id : Text) (old new : Option Text) (d : ChecksDiff)
    → put_id check_id new old (turn_round d) ≡ turn_round (put_id check_id old new d)
unfolding put_id
put_id-turn_round check_id none none d = refl
put_id-turn_round check_id none (some new) d = refl
put_id-turn_round check_id (some old) none d = refl
put_id-turn_round check_id (some old) (some new) d = put_change-turn_round check_id old new d

diff_ids-turn_round :
    (from to : List Check) (ids : List Text)
    → diff_ids to from ids ≡ turn_round (diff_ids from to ids)
unfolding diff_ids
diff_ids-turn_round from to [] = refl
diff_ids-turn_round from to (check_id ∷ ids) = rw (diff_ids-turn_round from to ids) (
    put_id-turn_round check_id (status_of from check_id) (status_of to check_id)
      (diff_ids from to ids))

-- Comparing two lists of checks the other way round turns every part of the difference round: what was
-- fixed is what regressed, with the statuses exchanged, what was added is what was removed, and the
-- inconclusive and the unchanged checks are the same.
pub diff_checks-turn_round :
    (from to : List Check) → diff_checks to from ≡ turn_round (diff_checks from to)
unfolding diff_checks
diff_checks-turn_round from to =
    rw (sorted_set-append_comm (ids_of to) (ids_of from))
      (diff_ids-turn_round from to (sorted_set (ids_of from ++ ids_of to)))
