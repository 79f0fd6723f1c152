-- ===== src/Threat/Refinement.antt =====
-- The table of threats refines a map from ids to lives: a specification that knows no rows.
use net_audit.Threat.Lookup.{get-update_threat}
use net_audit.Threat.Lookup.{get-upsert_threat}
use net_audit.Threat.Lookup.{found_row}
use net_audit.Threat.Store.{
  get_threat, update_threat, set_threat_enrichment, set_status, record_event, set_acknowledged,
  with_acknowledged, with_enrichment, with_status,
}
use net_audit.Threat.Engine.{
  MakeId, refired, upsert_finding, acknowledge, unacknowledge, finding_row, set_acknowledged_if,
}
use net_audit.Threat.{resolved, active, Tables, acknowledged}
use net_audit.Threat.{Finding}
use net_audit.Threat.Engine.{Runtime}
use net_audit.Common.Text.{Text, text_eq, text_eq→≡}
use net_audit.Threat.{Threat}
use net_audit.Threat.{ThreatStatus}
use mathlib.Core.Option
use mathlib.Core.Path.{fun_ext}
use net_audit.Common.{
  if◌then◌else◌, Bool-cases, ℕ, ◌+◌, max, ◌≡◌, refl, sym, ◌∙◌, inl, inr, false, Option, none, some,
  List, [], ◌∷◌, Bool, ap, true, some-cases,
}

-- What the specification keeps of a threat.
pub record Life : Type 0 where
  pub phase : ThreatStatus
  pub since : ℕ
  pub latest : ℕ
  pub count : ℕ
  pub note : Option Text

abbrev pub life_of : Threat → Life
life_of t = record {
  phase = t.status;
  since = t.first_seen;
  latest = t.last_seen;
  count = t.occurrences;
  note = t.acknowledged_note;
}

abbrev pub Lives : Type 0
Lives = Text → Option Life

-- How the table reads.
abbrev pub view : List Threat → Lives
view ts threat_id = Option.map life_of (get_threat threat_id ts)

-- The operations on threats: a finding, an acknowledgement and its withdrawal, the enrichment, and the
-- end of a cooldown.
pub data Call : Type 0 where
  found : Runtime → Finding → Call
  acked : Text → Option Text → Call
  unacked : Text → Option Text → Call
  enriched : Text → Text → Text → Call
  cooled : Text → Call

abbrev pub update : Lives → Text → Option Life → Lives
update lives x life y = if text_eq x y then life else lives y

-- A threat that was resolved wakes.
abbrev pub woken : ThreatStatus → ThreatStatus
woken active = active
woken resolved = active
woken acknowledged = acknowledged

-- The specification of a finding.
abbrev pub sighted : Finding → Option Life → Life
sighted f none = record {
  phase = active;
  since = f.observed_at;
  latest = f.observed_at;
  count = f.occurrence_count;
  note = none;
}
sighted f (some l) = record l {
  phase = woken l.phase;
  latest = max f.observed_at l.latest;
  count = l.count + f.occurrence_count;
}

abbrev pub in_phase : ThreatStatus → Option Text → Life → Life
in_phase phase remark l = record l { phase = phase; note = remark }

abbrev pub resolved_life : Life → Life
resolved_life l = record l { phase = resolved }

module _ (make_id : MakeId) where
  abbrev pub call : Call → Tables → Tables
  call (found r f) t = upsert_finding make_id r f t
  call (acked x remark) t = (acknowledge x remark t).1
  call (unacked x remark) t = (unacknowledge x remark t).1
  call (enriched x tags enrichment) t = record t {
    threats = set_threat_enrichment x tags enrichment t.threats;
  }
  call (cooled x) t = record t { threats = set_status x resolved t.threats }

  abbrev pub call_all : List Call → Tables → Tables
  call_all [] t = t
  call_all (c ∷ cs) t = call_all cs (call c t)

  -- The same call, on the map.
  abbrev pub specified : Call → Lives → Lives
  specified (found r f) v =
      update v (make_id r.detector f.key) (some (sighted f (v (make_id r.detector f.key))))
  specified (acked x remark) v = update v x (Option.map (in_phase acknowledged remark) (v x))
  specified (unacked x remark) v = update v x (Option.map (in_phase active none) (v x))
  specified (enriched x tags enrichment) v = v
  specified (cooled x) v = update v x (Option.map resolved_life (v x))

  abbrev pub replay : List Call → Lives → Lives
  replay [] v = v
  replay (c ∷ cs) v = replay cs (specified c v)

-- A row of a finding reads as the specification says.
refired-woken : (status : ThreatStatus) → refired status ≡ woken status
refired-woken active = refl
refired-woken resolved = refl
refired-woken acknowledged = refl

found_row-sighted :
    (threat_id : Text) (r : Runtime) (f : Finding) (o : Option Threat)
    → life_of (found_row o (finding_row threat_id r f o)) ≡ sighted f (Option.map life_of o)
found_row-sighted threat_id r f none = refl
found_row-sighted threat_id r f (some t) = rw (refired-woken t.status) refl

map-if :
    (b : Bool) (o p : Option Threat)
    → Option.map life_of (if b then o else p)
      ≡ (if b then Option.map life_of o else Option.map life_of p)
map-if true o p = refl
map-if false o p = refl

finding_row_id :
    (threat_id : Text) (r : Runtime) (f : Finding) (o : Option Threat)
    → (finding_row threat_id r f o).id ≡ threat_id
finding_row_id threat_id r f none = refl
finding_row_id threat_id r f (some t) = refl

view-upsert_finding :
    (make_id : MakeId) (r : Runtime) (f : Finding) (t : Tables) (x : Text)
    → view (upsert_finding make_id r f t).threats x
      ≡ specified make_id (found r f) (view t.threats) x
unfolding upsert_finding record_event
view-upsert_finding make_id r f t x =
    let i : Text = make_id r.detector f.key in
    let o : Option Threat = get_threat i t.threats in
    let row : Threat = finding_row i r f o in
    let e : row.id ≡ i = finding_row_id i r f o in
    ap (Option.map life_of) (get-upsert_threat x row t.threats)
    ∙ map-if (text_eq row.id x) (some (found_row (get_threat row.id t.threats) row))
        (get_threat x t.threats)
    ∙ rw (e, found_row-sighted i r f o) refl

view-update_threat :
    (x y : Text) (change : Threat → Threat) (law : Life → Life) (ts : List Threat)
    → ((t : Threat) → (change t).id ≡ t.id)
    → ((t : Threat) → life_of (change t) ≡ law (life_of t))
    → view (update_threat x change ts) y ≡ update (view ts) x (Option.map law (view ts x)) y
view-update_threat x y change law ts keeps lawful =
    ap (Option.map life_of) (get-update_threat x y change ts keeps)
    ∙ map-if (text_eq x y) (Option.map change (get_threat x ts)) (get_threat y ts)
    ∙ elim (some-cases (get_threat x ts)) [ inl e ↦ rw e refl | inr (t, e) ↦ rw (e, lawful t) refl ]

same_update : (v : Lives) (x y : Text) → update v x (Option.map (λ l. l) (v x)) y ≡ v y
same_update v x y = elim (Bool-cases (text_eq x y)) [
  | inl same ↦ rw (same, sym (text_eq→≡ x y same)) (ap (λ f. f (v x)) Option.map-id)
  | inr apart ↦ rw apart refl
]

abbrev acknowledged_law : Bool → Option Text → Life → Life
acknowledged_law true remark = in_phase acknowledged remark
acknowledged_law false remark = in_phase active none

view-set_acknowledged :
    (y x : Text) (is_acknowledged : Bool) (remark : Option Text) (ts : List Threat)
    → view (set_acknowledged y is_acknowledged remark ts) x
      ≡ update (view ts) y (Option.map (acknowledged_law is_acknowledged remark) (view ts y)) x
unfolding set_acknowledged
view-set_acknowledged y x true remark ts =
    view-update_threat y x (with_acknowledged true remark) (in_phase acknowledged remark) ts
      (λ u. refl) (λ u. refl)
view-set_acknowledged y x false remark ts =
    view-update_threat y x (with_acknowledged false remark) (in_phase active none) ts (λ u. refl)
      (λ u. refl)

update-missing : (v : Lives) (y x : Text) → v y ≡ none → v x ≡ update v y none x
update-missing v y x e = elim (Bool-cases (text_eq y x)) [
  | inl same ↦ rw (same, sym (text_eq→≡ y x same)) e
  | inr apart ↦ rw apart refl
]

view-acknowledged :
    (y x : Text) (is_acknowledged : Bool) (remark : Option Text) (t : Tables)
    → view (set_acknowledged_if (get_threat y t.threats) y is_acknowledged remark t).1.threats x
      ≡ update
          (view t.threats)
          y
          (Option.map (acknowledged_law is_acknowledged remark) (view t.threats y))
          x
unfolding set_acknowledged_if
view-acknowledged y x is_acknowledged remark t = elim (some-cases (get_threat y t.threats)) [
  | inl e ↦
      rw (e, set_acknowledged_if) (update-missing (view t.threats) y x (ap (Option.map life_of) e))
  | inr (row, e) ↦
      ap (λ o. view (set_acknowledged_if o y is_acknowledged remark t).1.threats x) e
      ∙ view-set_acknowledged y x is_acknowledged remark t.threats
]

module _ (make_id : MakeId) where
  call-specified :
      (c : Call) (t : Tables) (x : Text)
      → view (call make_id c t).threats x ≡ specified make_id c (view t.threats) x
  unfolding acknowledge unacknowledge set_threat_enrichment set_status
  call-specified (found r f) t x = view-upsert_finding make_id r f t x
  call-specified (acked y remark) t x = view-acknowledged y x true remark t
  call-specified (unacked y remark) t x = view-acknowledged y x false none t
  call-specified (enriched y tags enrichment) t x =
      view-update_threat y x (with_enrichment tags enrichment) (λ l. l) t.threats (λ u. refl)
        (λ u. refl)
      ∙ same_update (view t.threats) y x
  call-specified (cooled y) t x =
      view-update_threat y x (with_status resolved) resolved_life t.threats (λ u. refl) (λ u. refl)

  -- Every sequence of findings, acknowledgements, withdrawals, enrichments and ended cooldowns leaves
  -- a table that reads, at every id, as the map that the same operations make of the table's reading
  -- before: a new finding starts a life that is active; a repeated one keeps the start and the note,
  -- moves the last sighting forward only, adds up the occurrences, and wakes a resolved threat but not an
  -- acknowledged one; nothing else touches another id.
  pub call_all-replay :
      (cs : List Call) (t : Tables)
      → view (call_all make_id cs t).threats ≡ replay make_id cs (view t.threats)
  call_all-replay [] t = refl
  call_all-replay (c ∷ cs) t =
      call_all-replay cs (call make_id c t) ∙ ap (replay make_id cs) (fun_ext (call-specified c t))
