-- ===== src/Threat/Bounded.antt =====
-- The tunables of the detectors stay within their specifications.
use net_audit.Common.Attempt.{Attempt-cases}
use net_audit.Threat.Engine.{
  MakeId, TunableSpec, Tunable, fired, save_fired, Reports, when_run, run_once, bool_value,
  number_value, str_value, other_value, upsert_findings,
}
use net_audit.Threat.Engine.{Progress}
use net_audit.Threat.Engine.{run_detectors}
use net_audit.Threat.{Finding, Tables}
use net_audit.Threat.Settings.{
  patch_in, refusal_of, Patch, patch_given, save_patched, patch_detector, spec_of, object,
  after_enabled, absent, patch_enabled, not_object,
}
use net_audit.Threat.Settings.{Refusal}
use net_audit.Threat.Engine.{save_detector_settings}
use net_audit.Threat.Settings.{patch_runtime}
use net_audit.Threat.Settings.{GivenTunables}
use net_audit.Threat.Settings.{patch_tunables}
use net_audit.Threat.Settings.{set_tunable}
use net_audit.Threat.Engine.{Engine}
use net_audit.Common.Text.{Text, text_eq, text_eq→≡}
use net_audit.Threat.Engine.{Runtime}
use net_audit.Common.{
  Bool-cases, some-cases, All, ℕ, ◌≡◌, inl, inr, Option, none, some, List, [], ◌∷◌,
}

-- Every value is one that its specification accepts.
abbrev pub InSpec : Runtime → Type 0
InSpec r = All (λ p. refusal_of p.0 (spec_of p.0 r.specs) p.1 ≡ none) r.tunables

-- What the engine is asked to do: a change of settings, or a run.
pub data Request : Type 0 where
  patched : Text → Patch → Request
  ran : Reports → ℕ → Request

abbrev pub InBounds : Engine → Type 0
InBounds e = All InSpec e.runtimes × All InSpec e.saved

set_tunable-InSpec :
    (specs : List TunableSpec) (key : Text) (value : Tunable) (ts : List (Text × Tunable))
    → refusal_of key (spec_of key specs) value ≡ none
    → All (λ p. refusal_of p.0 (spec_of p.0 specs) p.1 ≡ none) ts
    → All (λ p. refusal_of p.0 (spec_of p.0 specs) p.1 ≡ none) (set_tunable key value ts)
unfolding set_tunable
set_tunable-InSpec specs key value [] h hs = (h, tt)
set_tunable-InSpec specs key value ((k, v) ∷ ts) h hs =
    let rest = set_tunable-InSpec specs key value ts h hs.1 in
    elim (Bool-cases (text_eq k key)) [
      | inl same ↦ rw same (rw (text_eq→≡ k key same) h, hs.1)
      | inr other ↦ rw other (hs.0, rest)
    ]

patch_tunables-InSpec :
    (values : List (Text × Tunable)) (r : Runtime) → InSpec r → InSpec (patch_tunables values r).1
unfolding patch_tunables
patch_tunables-InSpec [] r h = h
patch_tunables-InSpec ((key, value) ∷ rest) r h =
    elim (some-cases (refusal_of key (spec_of key r.specs) value)) [
      | inl e ↦
          rw (e, patch_tunables)
            (patch_tunables-InSpec rest (record r { tunables = set_tunable key value r.tunables })
              (set_tunable-InSpec r.specs key value r.tunables e h))
      | inr (x, e) ↦ rw (e, patch_tunables) h
    ]

patch_given-InSpec :
    (given : GivenTunables) (r : Runtime) → InSpec r → InSpec (patch_given given r).1
patch_given-InSpec absent r h = h
patch_given-InSpec not_object r h = h
patch_given-InSpec (object values) r h = patch_tunables-InSpec values r h

patch_runtime-InSpec : (p : Patch) (r : Runtime) → InSpec r → InSpec (patch_runtime p r).1
unfolding patch_runtime
patch_runtime-InSpec p r h = enabled_first p.given_enabled
  where
    enabled_first :
        (given : Option Tunable) → InSpec (after_enabled p.given_tunables (patch_enabled given r)).1
    enabled_first none = patch_given-InSpec p.given_tunables r h
    enabled_first (some (bool_value b)) =
        patch_given-InSpec p.given_tunables (record r { enabled = b }) h
    enabled_first (some (number_value n)) = h
    enabled_first (some (str_value s)) = h
    enabled_first (some other_value) = h

save-InSpec :
    (r : Runtime) (saved : List Runtime)
    → InSpec r
    → All InSpec saved
    → All InSpec (save_detector_settings r saved)
unfolding save_detector_settings
save-InSpec r [] h hs = (h, tt)
save-InSpec r (s ∷ ss) h hs =
    let rest = save-InSpec r ss h hs.1 in
    elim (Bool-cases (text_eq s.detector r.detector)) [
      | inl same ↦ rw same (h, hs.1)
      | inr other ↦ rw other (hs.0, rest)
    ]

save_patched-InSpec :
    (p : Option Refusal × Runtime) (saved : List Runtime)
    → InSpec p.1
    → All InSpec saved
    → All InSpec (save_patched p saved)
save_patched-InSpec (some refusal, r) saved h hs = hs
save_patched-InSpec (none, r) saved h hs = save-InSpec r saved h hs

patch_in-InSpec :
    (i : Text) (p : Patch) (rs saved : List Runtime)
    → All InSpec rs
    → All InSpec saved
    → All InSpec (patch_in i p rs saved).1.running × All InSpec (patch_in i p rs saved).1.stored
unfolding patch_in
patch_in-InSpec i p [] saved h hs = (tt, hs)
patch_in-InSpec i p (r ∷ rs) saved h hs =
    let rest = patch_in-InSpec i p rs saved h.1 hs in
    elim (Bool-cases (text_eq r.detector i)) [
      | inl same ↦ rw same (
        (patch_runtime-InSpec p r h.0, h.1),
        save_patched-InSpec (patch_runtime p r) saved (patch_runtime-InSpec p r h.0) hs,
      )
      | inr other ↦ rw other ((h.0, rest.0), rest.1)
    ]

fired-InSpec : (now : ℕ) (fs : List Finding) (r : Runtime) → InSpec r → InSpec (fired now fs r)
fired-InSpec now [] r h = h
fired-InSpec now (f ∷ fs) r h = h

save_fired-InSpec :
    (fs : List Finding) (r : Runtime) (saved : List Runtime)
    → InSpec r
    → All InSpec saved
    → All InSpec (save_fired fs r saved)
save_fired-InSpec [] r saved h hs = hs
save_fired-InSpec (f ∷ fs) r saved h hs = save-InSpec r saved h hs

run_detectors-InSpec :
    (make_id : MakeId) (reports : Reports) (now : ℕ) (rs saved : List Runtime) (t : Tables)
    → All InSpec rs
    → All InSpec saved
    → All InSpec (run_detectors make_id reports now rs saved t).after
      × All InSpec (run_detectors make_id reports now rs saved t).saved_rows
unfolding run_detectors
run_detectors-InSpec make_id reports now [] saved t h hs = (tt, hs)
run_detectors-InSpec make_id reports now (r ∷ rs) saved t h hs = elim (Bool-cases r.enabled) [
  | inr off ↦
      let rest = run_detectors-InSpec make_id reports now rs saved t h.1 hs in
      rw (off, run_detectors) ((h.0, rest.0), rest.1)
  | inl on ↦ elim (Attempt-cases (reports r.detector)) [
    | inl (error, e) ↦ rw (on, e, run_detectors) (h, hs)
    | inr (fs, e) ↦
        let here = fired-InSpec now fs r h.0 in
        let rest =
          run_detectors-InSpec make_id reports now rs (save_fired fs (fired now fs r) saved)
            (upsert_findings make_id r fs t) h.1
            (save_fired-InSpec fs (fired now fs r) saved here hs) in
        rw (on, e, run_detectors) ((here, rest.0), rest.1)
  ]
]

when_run-InBounds :
    (now : ℕ) (p : Progress) (o : Option Text)
    → All InSpec p.after
    → All InSpec p.saved_rows
    → InBounds (when_run now p o).1
when_run-InBounds now p none h hs = (h, hs)
when_run-InBounds now p (some error) h hs = (h, hs)

module _ (make_id : MakeId) where
  abbrev pub handle : Request → Engine → Engine
  handle (patched i p) e = (patch_detector i p e).1
  handle (ran reports now) e = (run_once make_id reports now e).1

  abbrev pub handle_all : List Request → Engine → Engine
  handle_all [] e = e
  handle_all (r ∷ rs) e = handle_all rs (handle r e)

  handle-InBounds : (r : Request) (e : Engine) → InBounds e → InBounds (handle r e)
  unfolding patch_detector run_once
  handle-InBounds (patched i p) e h = patch_in-InSpec i p e.runtimes e.saved h.0 h.1
  handle-InBounds (ran reports now) e h =
      let p : Progress = run_detectors make_id reports now e.runtimes e.saved e.tables in
      let held = run_detectors-InSpec make_id reports now e.runtimes e.saved e.tables h.0 h.1 in
      when_run-InBounds now p p.raised held.0 held.1

  -- If every tunable, in the runtimes and in the store, is one that its specification accepts, that
  -- holds behind every sequence of patches, refused ones included, and of runs of the engine, ones
  -- that a detector's exception ends included.
  pub handle_all-InBounds :
      (rs : List Request) (e : Engine) → InBounds e → InBounds (handle_all rs e)
  handle_all-InBounds [] e h = h
  handle_all-InBounds (r ∷ rs) e h = handle_all-InBounds rs (handle r e) (handle-InBounds r e h)
