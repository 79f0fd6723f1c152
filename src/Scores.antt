-- ===== src/Scores.antt =====
-- posture/scoring.py and threat/scoring.py: the scores of 0 to 100 and their grades.
pub mod Rounding
pub mod Monotone
use net_audit.Common.Text.{text_eq, codes}
use net_audit.Common.Text.{Text}
use net_audit.Common.{
  ltb, leb, ◌==◌, if◌then◌else◌, ℕ, ◌+◌, ◌-◌, ◌*◌, ◌/◌, ◌%◌, min, Bool, true, false, not, List, [],
  ◌∷◌, arith,
}

-- `round` of a quotient: to the nearest whole number, and to the even one of two that are as near.
unfoldable pub round_half_even : ℕ → ℕ → ℕ
round_half_even n d =
    if ltb (2 * (n % d)) d
    then n / d
    else if ltb d (2 * (n % d))
    then n / d + 1
    else n / d + (n / d) % 2

pub data CheckStatus : Type 0 where
  pass warn fail error skipped : CheckStatus

pub record WeightedStatus : Type 0 where
  pub status : CheckStatus
  pub score_weight : ℕ

abbrev pub is_scorable : CheckStatus → Bool
is_scorable pass = true
is_scorable warn = true
is_scorable fail = true
is_scorable _ = false

abbrev pub is_pass : CheckStatus → Bool
is_pass pass = true
is_pass _ = false

abbrev pub is_warn : CheckStatus → Bool
is_warn warn = true
is_warn _ = false

-- The sum of the weights of the checks whose status passes a test.
unfoldable pub weight_of : (CheckStatus → Bool) → List WeightedStatus → ℕ
weight_of test [] = 0
weight_of test (c ∷ cs) = (if test c.status then c.score_weight else 0) + weight_of test cs

-- 100 * (pass + 0.5 * warn) / (pass + warn + fail), over twice the denominator.
unfoldable pub compute_score : List WeightedStatus → ℕ
unfolding weight_of round_half_even
compute_score checks =
    let denominator : ℕ = weight_of is_scorable checks in
    if denominator == 0
    then 0
    else round_half_even (100 * (2 * weight_of is_pass checks + weight_of is_warn checks))
        (2 * denominator)

-- The bands of the posture's grades and of the threats' grades: 4 for A down to 0 for F.
unfoldable pub posture_grade : ℕ → ℕ
posture_grade score =
    if leb 90 score
    then 4
    else if leb 80 score
    then 3
    else if leb 65 score
    then 2
    else if leb 50 score
    then 1
    else 0

unfoldable pub threats_grade : ℕ → ℕ
threats_grade score =
    if leb 90 score
    then 4
    else if leb 80 score
    then 3
    else if leb 70 score
    then 2
    else if leb 60 score
    then 1
    else 0

pub data ThreatStatus : Type 0 where
  active acknowledged resolved : ThreatStatus

-- `SEVERITY_PENALTY`; any other severity costs nothing.
abbrev pub severity_penalty : Text → ℕ
severity_penalty severity =
    if text_eq severity (codes "critical")
    then 25
    else if text_eq severity (codes "high")
    then 12
    else if text_eq severity (codes "medium")
    then 5
    else if text_eq severity (codes "low")
    then 2
    else 0

-- The weight of a threat, in quarters.
abbrev pub quarters : ThreatStatus → ℕ
quarters active = 4
quarters acknowledged = 1
quarters resolved = 0

pub record ThreatRow : Type 0 where
  pub severity : Text
  pub threat_state : ThreatStatus

unfoldable pub penalty_of : List ThreatRow → ℕ
unfolding text_eq
penalty_of [] = 0
penalty_of (t ∷ ts) = severity_penalty t.severity * quarters t.threat_state + penalty_of ts

-- max(0, min(100, round(100 - penalty)))
unfoldable pub compute_threats_score : List ThreatRow → ℕ
unfolding penalty_of round_half_even
compute_threats_score threats = min 100 (round_half_even (400 - penalty_of threats) 4)
