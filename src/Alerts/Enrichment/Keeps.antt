-- ===== src/Alerts/Enrichment/Keeps.antt =====
-- What every lookup keeps, a run of `enrich` keeps.
use net_audit.Alerts.{Severity}
use net_audit.Common.Int.{ℤ}
use net_audit.Alerts.Enrichment.Responses.{ReadAddress, Indicator, extract_public_ips}
use net_audit.Common.Attempt.{Attempt, failed, done}
use net_audit.Alerts.Enrichment.Run.{
  enrich, then_run, never_raised, look_up_all, enrich_all, is_due, add_address,
}
use net_audit.Common.Text.{Text}
use net_audit.Alerts.Enrichment.Lookup.{Tables, Answers, Entries, look_up, usable_providers}
use net_audit.Common.{Bool-cases, All, ℕ, ◌≡◌, inl, inr, true, List, [], ◌∷◌}

then_run-keeps :
    {A B : Type 0} (P : Tables → Type 0) (r : Attempt A × Tables)
    (next : A → Tables → Attempt B × Tables)
    → P r.1
    → ((a : A) (u : Tables) → P u → P (next a u).1)
    → P (then_run r next).1
then_run-keeps P (failed e, t) next h keeps = h
then_run-keeps P (done a, t) next h keeps = keeps a t h

never_raised-keeps :
    (P : Tables → Type 0) (r : Attempt (List (Text × Entries)) × Tables)
    → P r.1
    → P (never_raised r).1
never_raised-keeps P (failed e, t) h = h
never_raised-keeps P (done results, t) h = h

module _ (Asked Address : Text → Type 0) (P : Tables → Type 0) (answers : Answers) (now : ℕ)
    (ttl : ℤ) (today : Text)
    (look_up-P : (ip provider_id : Text) (t : Tables)
      → Address ip
      → Asked provider_id
      → P t
      → P (look_up answers now ttl today ip provider_id t).1) where
  look_up_all-keeps :
      (ip : Text) (ps : List Text) (t : Tables)
      → Address ip
      → All Asked ps
      → P t
      → P (look_up_all answers now ttl today ip ps t).1
  unfolding look_up_all
  look_up_all-keeps ip [] t i hs h = h
  look_up_all-keeps ip (p ∷ ps) t i hs h =
      then_run-keeps P (look_up answers now ttl today ip p t)
        (λ entry u.
          then_run (look_up_all answers now ttl today ip ps u)
            (λ entries v. (done ((p, entry) ∷ entries), v)))
        (look_up-P ip p t i hs.0 h)
        (λ entry u k.
          then_run-keeps P (look_up_all answers now ttl today ip ps u)
            (λ entries v. (done ((p, entry) ∷ entries), v)) (look_up_all-keeps ip ps u i hs.1 k)
            (λ entries v l. l))

  pub enrich_all-keeps :
      (ps ips : List Text) (t : Tables)
      → All Address ips
      → All Asked ps
      → P t
      → P (enrich_all answers now ttl today ps ips t).1
  unfolding enrich_all
  enrich_all-keeps ps [] t is hs h = h
  enrich_all-keeps ps (ip ∷ ips) t is hs h =
      then_run-keeps P (look_up_all answers now ttl today ip ps t)
        (λ entries u.
          then_run (enrich_all answers now ttl today ps ips u)
            (λ results v. (done (add_address ip entries results), v)))
        (look_up_all-keeps ip ps t is.0 hs h)
        (λ entries u k.
          then_run-keeps P (enrich_all answers now ttl today ps ips u)
            (λ results v. (done (add_address ip entries results), v))
            (enrich_all-keeps ps ips u is.1 hs k) (λ results v l. l))

-- What holds of the tables holds behind a run, if a run that is due keeps it.
pub enrich-keeps :
    (P : Tables → Type 0) (read_address : ReadAddress) (answers : Answers) (now : ℕ) (today : Text)
    (indicators : List Indicator) (severity : Severity) (t : Tables)
    → P t
    → (is_due t.config severity
            (extract_public_ips read_address indicators)
            (usable_providers t.providers)
          ≡ true
        → P
            (enrich_all answers now t.config.cache_ttl_hours today
              (usable_providers t.providers)
              (extract_public_ips read_address indicators)
              t).1)
    → P (enrich read_address answers now today indicators severity t).1
unfolding enrich
enrich-keeps P read_address answers now today indicators severity t h due =
    elim (Bool-cases (
      is_due t.config severity (extract_public_ips read_address indicators)
        (usable_providers t.providers))) [
          | inl e ↦ rw e (
              never_raised-keeps P
                (enrich_all answers now t.config.cache_ttl_hours today
                  (usable_providers t.providers) (extract_public_ips read_address indicators) t)
                (due e))
          | inr e ↦ rw e h
        ]
