-- ===== src/Scores/Monotone.antt =====
-- Scores are between 0 and 100, and an improvement never lowers them.
use net_audit.Scores.Rounding.{round_half_even_mono, round_half_even_whole}
use net_audit.Scores.{
  compute_threats_score, pass, is_scorable, is_pass, posture_grade, quarters, severity_penalty,
  threats_grade, warn, is_warn, round_half_even, ThreatStatus, active, acknowledged, resolved,
}
use net_audit.Scores.{penalty_of}
use net_audit.Scores.{ThreatRow}
use net_audit.Scores.{compute_score}
use net_audit.Scores.{weight_of}
use net_audit.Scores.{WeightedStatus}
use net_audit.Scores.{CheckStatus}
use native.Mathlib.Nat.{mul-le-mul_left}
use net_audit.Common.{
  ◌==◌, Bool-cases, ℕ, ◌+◌, ◌-◌, ◌*◌, ◌≤◌, ◌<◌, ◌≡◌, refl, inl, inr, List, [], ◌∷◌, arith,
}

-- How good a status is: a pass counts twice as much as a warning.
abbrev pub points : CheckStatus → ℕ
points pass = 2
points warn = 1
points _ = 0

-- The same checks with the same weights, none of them worse, and the same of them without a verdict.
abbrev pub NoWorse : List WeightedStatus → List WeightedStatus → Type 0
NoWorse [] [] = Unit
NoWorse (c ∷ cs) (d ∷ ds) =
    (c.score_weight ≡ d.score_weight)
    × (is_scorable c.status ≡ is_scorable d.status)
    × (points c.status ≤ points d.status)
    × NoWorse cs ds
NoWorse _ _ = ⊥

abbrev earned : List WeightedStatus → ℕ
earned cs = 2 * weight_of is_pass cs + weight_of is_warn cs

NoWorse-denominator :
    (cs ds : List WeightedStatus)
    → NoWorse cs ds
    → weight_of is_scorable cs ≡ weight_of is_scorable ds
unfolding weight_of
NoWorse-denominator [] [] h = refl
NoWorse-denominator [] (d ∷ ds) h = absurd h
NoWorse-denominator (c ∷ cs) [] h = absurd h
NoWorse-denominator (c ∷ cs) (d ∷ ds) h = rw (h.0, h.1, NoWorse-denominator cs ds h.3) refl

NoWorse-earned : (cs ds : List WeightedStatus) → NoWorse cs ds → earned cs ≤ earned ds
unfolding weight_of
NoWorse-earned [] [] h = omega arith
NoWorse-earned [] (d ∷ ds) h = absurd h
NoWorse-earned (c ∷ cs) [] h = absurd h
NoWorse-earned (c ∷ cs) (d ∷ ds) h =
    let rest : earned cs ≤ earned ds = NoWorse-earned cs ds h.3 in ground arith

earned-denominator : (cs : List WeightedStatus) → earned cs ≤ 2 * weight_of is_scorable cs
unfolding weight_of
earned-denominator [] = omega arith
earned-denominator (c ∷ cs) = ground (arith, earned-denominator cs)

-- If no check gets worse, and the same checks have a verdict, the posture score does not fall, and nor
-- does its grade.
pub compute_score-NoWorse :
    (cs ds : List WeightedStatus)
    → NoWorse cs ds
    → (compute_score cs ≤ compute_score ds)
      × (posture_grade (compute_score cs) ≤ posture_grade (compute_score ds))
unfolding compute_score posture_grade
compute_score-NoWorse cs ds h =
    let less : 100 * earned cs ≤ 100 * earned ds = omega (arith, NoWorse-earned cs ds h) in
    let scores : compute_score cs ≤ compute_score ds =
      elim (Bool-cases (weight_of is_scorable ds == 0)) [
        | inl nothing ↦ rw (NoWorse-denominator cs ds h, nothing) (omega arith)
        | inr scored ↦
            rw (NoWorse-denominator cs ds h, scored)
              (round_half_even_mono (100 * earned cs) (100 * earned ds)
                (2 * weight_of is_scorable ds) (ground arith) less)
      ] in
    (scores, ground arith)

-- The posture score is at most 100.
compute_score_bound : (cs : List WeightedStatus) → compute_score cs ≤ 100
unfolding compute_score
compute_score_bound cs = elim (Bool-cases (weight_of is_scorable cs == 0)) [
  | inl nothing ↦ rw nothing (omega arith)
  | inr scored ↦
      let d : ℕ = 2 * weight_of is_scorable cs in
      let positive : 0 < d = ground arith in
      let less : 100 * earned cs ≤ 100 * d = omega (arith, earned-denominator cs) in
      let bound : round_half_even (100 * earned cs) d ≤ round_half_even (100 * d) d =
        round_half_even_mono (100 * earned cs) (100 * d) d positive less in
      rw scored (omega (arith, bound, round_half_even_whole 100 d positive))
]

-- What becomes of a threat as the user settles it.
pub data Settles : ThreatStatus → ThreatStatus → Type 0 where
  unchanged : {s : ThreatStatus} → Settles s s
  acknowledges : Settles active acknowledged
  resolves_active : Settles active resolved
  resolves_acknowledged : Settles acknowledged resolved

Settles-quarters : {s s' : ThreatStatus} → Settles s s' → quarters s' ≤ quarters s
Settles-quarters unchanged = omega arith
Settles-quarters acknowledges = omega arith
Settles-quarters resolves_active = omega arith
Settles-quarters resolves_acknowledged = omega arith

-- The same threats, each as it was, or acknowledged or resolved since.
abbrev pub NoLessSettled : List ThreatRow → List ThreatRow → Type 0
NoLessSettled [] [] = Unit
NoLessSettled (t ∷ ts) (u ∷ us) =
    (t.severity ≡ u.severity) × Settles t.threat_state u.threat_state × NoLessSettled ts us
NoLessSettled _ _ = ⊥

NoLessSettled-penalty_of :
    (ts us : List ThreatRow) → NoLessSettled ts us → penalty_of us ≤ penalty_of ts
unfolding penalty_of
NoLessSettled-penalty_of [] [] h = omega arith
NoLessSettled-penalty_of [] (u ∷ us) h = absurd h
NoLessSettled-penalty_of (t ∷ ts) [] h = absurd h
NoLessSettled-penalty_of (t ∷ ts) (u ∷ us) h =
    let rest : penalty_of us ≤ penalty_of ts = NoLessSettled-penalty_of ts us h.2 in
    let here : severity_penalty u.severity * quarters u.threat_state
        ≤ severity_penalty u.severity * quarters t.threat_state =
      mul-le-mul_left (severity_penalty u.severity) (Settles-quarters h.1) in
    rw h.0 (omega (arith, here, rest))

-- Acknowledging active threats, and resolving active or acknowledged ones, never lowers the score of the
-- threats or its grade.
pub compute_threats_score-NoLessSettled :
    (ts us : List ThreatRow)
    → NoLessSettled ts us
    → (compute_threats_score ts ≤ compute_threats_score us)
      × (threats_grade (compute_threats_score ts) ≤ threats_grade (compute_threats_score us))
unfolding compute_threats_score threats_grade
compute_threats_score-NoLessSettled ts us h =
    let rounded : round_half_even (400 - penalty_of ts) 4
        ≤ round_half_even (400 - penalty_of us) 4 =
      round_half_even_mono (400 - penalty_of ts) (400 - penalty_of us) 4 (omega arith)
        (omega (arith, NoLessSettled-penalty_of ts us h)) in
    let scores : compute_threats_score ts ≤ compute_threats_score us = omega (arith, rounded) in
    (scores, ground arith)
