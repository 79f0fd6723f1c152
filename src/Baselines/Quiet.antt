-- ===== src/Baselines/Quiet.antt =====
-- A snapshot that does not differ raises no alert.
use net_audit.Baselines.Snapshot.{sorted_set}
use net_audit.Common.Text.{text_eq_refl, Text}
use net_audit.Baselines.Diff.{
  alert_categories, put_change, diff_records, diff_checks, ChecksDiff, status_of, ids_of,
}
use net_audit.Common.Int.{sub_ℤ, ℤ, is_negative}
use net_audit.Baselines.{Listener, Check, Baseline}
use net_audit.Baselines.Diff.{listeners_beyond}
use net_audit.Baselines.Diff.{listener_eq}
use net_audit.Baselines.Diff.{diff_ids}
use net_audit.Baselines.Diff.{put_id}
use net_audit.Common.{
  ==-refl, All, any, ◌≡◌, refl, ◌∙◌, true, false, Option, none, some, List, [], ◌∷◌, ◌++◌, arith,
}

-- The same status on both sides puts nothing but a count.
put_id-same :
    (check_id : Text) (status : Option Text) (d : ChecksDiff)
    → (put_id check_id status status d).regressed ≡ d.regressed
unfolding put_id put_change
put_id-same check_id none d = refl
put_id-same check_id (some status) d = rw (text_eq_refl status) refl

diff_ids-same : (cs : List Check) (ids : List Text) → (diff_ids cs cs ids).regressed ≡ []
unfolding diff_ids
diff_ids-same cs [] = refl
diff_ids-same cs (check_id ∷ ids) =
    put_id-same check_id (status_of cs check_id) (diff_ids cs cs ids) ∙ diff_ids-same cs ids

listener_eq_refl : (l : Listener) → listener_eq l l ≡ true
unfolding listener_eq
listener_eq_refl l = rw (==-refl l.port, text_eq_refl l.process) refl

listeners_beyond-known :
    (seen ls : List Listener)
    → All (λ l. any (listener_eq l) seen ≡ true) ls
    → listeners_beyond seen ls ≡ []
unfolding listeners_beyond
listeners_beyond-known seen [] h = refl
listeners_beyond-known seen (l ∷ ls) h = rw h.0 (listeners_beyond-known seen ls h.1)

known-All :
    (ks ls : List Listener)
    → All (λ l. any (listener_eq l) ls ≡ true) ks
    → (l : Listener) → All (λ k. any (listener_eq k) (l ∷ ls) ≡ true) ks
known-All [] ls h l = tt
known-All (k ∷ ks) ls h l = (ground arith, known-All ks ls h.1 l)

known_self : (ls : List Listener) → All (λ l. any (listener_eq l) ls ≡ true) ls
known_self [] = tt
known_self (l ∷ ls) = (rw (listener_eq_refl l) refl, known-All ls ls (known_self ls) l)

sub_self : (x : ℤ) → is_negative (sub_ℤ x x) ≡ false
unfolding sub_ℤ
sub_self (ℤ.pos n) = ground arith
sub_self (ℤ.negsuc n) = ground arith

-- A snapshot with the same checks, listeners and overall score as its predecessor raises no alert,
-- whatever its peers, its other scores and its label are.
pub alert_categories-unchanged :
    (from to : Baseline)
    → to.checks ≡ from.checks
    → to.listeners ≡ from.listeners
    → to.overall_score ≡ from.overall_score
    → alert_categories (diff_records from to) ≡ []
unfolding alert_categories diff_records diff_checks
alert_categories-unchanged from to e f g =
    rw
      (
        e,
        f,
        g,
        diff_ids-same from.checks (sorted_set (ids_of from.checks ++ ids_of from.checks)),
        listeners_beyond-known from.listeners from.listeners (known_self from.listeners),
        sub_self from.overall_score,
      )
      refl
