-- ===== src/Tests/Scores.antt =====
-- The scores at concrete checks and threats.
use net_audit.Common.Text.{codes}
use net_audit.Scores.Monotone.{
  compute_score-NoWorse, compute_threats_score-NoLessSettled, acknowledges,
}
use net_audit.Scores.{
  compute_threats_score, WeightedStatus, fail, pass, ThreatRow, active, warn, posture_grade,
  acknowledged, skipped, threats_grade,
}
use net_audit.Scores.{ThreatStatus}
use net_audit.Scores.{compute_score}
use net_audit.Scores.{CheckStatus}
use net_audit.Common.{◌≤◌, ◌≡◌, refl, List, [], ◌∷◌, arith}

abbrev firewall : CheckStatus → List WeightedStatus
firewall status =
    (record { status = status; score_weight = 10 })
    ∷ (record { status = warn; score_weight = 5 })
    ∷ (record { status = skipped; score_weight = 7 })
    ∷ []

compute_score-NoWorse_example :
    (compute_score (firewall fail) ≤ compute_score (firewall pass))
    × (posture_grade (compute_score (firewall fail))
        ≤ posture_grade (compute_score (firewall pass)))
compute_score-NoWorse_example =
    compute_score-NoWorse (firewall fail) (firewall pass)
      (refl, refl, omega arith, (refl, refl, omega arith, (refl, refl, omega arith, tt)))

-- 100 * 2.5 / 15 = 16.67
firewall_score : compute_score (firewall fail) ≡ 17
unfolding compute_score
firewall_score = refl

abbrev scan : ThreatStatus → List ThreatRow
scan state = (record { severity = codes "high"; threat_state = state }) ∷ []

compute_threats_score-NoLessSettled_example :
    (compute_threats_score (scan active) ≤ compute_threats_score (scan acknowledged))
    × (threats_grade (compute_threats_score (scan active))
        ≤ threats_grade (compute_threats_score (scan acknowledged)))
compute_threats_score-NoLessSettled_example =
    compute_threats_score-NoLessSettled (scan active) (scan acknowledged) (refl, acknowledges, tt)
