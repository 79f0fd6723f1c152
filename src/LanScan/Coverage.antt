-- ===== src/LanScan/Coverage.antt =====
-- What the run of a scan tries and reports.
use net_audit.LanScan.Bounds.{start_scan-IsBounded, IsPrivate, InSome}
use net_audit.LanScan.Bounds.{IsBounded}
use net_audit.LanScan.{ParsedNetwork, Validated, validate_scan_request, refused, accepted}
use net_audit.LanScan.{is_valid_port}
use net_audit.Common.Attempt.{Attempt-cases}
use net_audit.Common.Text.{Text}
use net_audit.Common.Int.{ℤ}
use net_audit.LanScan.Job.{
  Progress, Scan, Connector, going, raised, scan_ports, add_result, scan_all, stopped, attempted,
  look, is_set, looked, Job, Signal, Started, start_scan, run, if_open, ended, final_status,
  started, is_running, running, errored, JobStatus, new_job, not_valid, already_running, JobStatus,
}
use mathlib.Core.Path.{subst}
use native.Mathlib.Nat.{suc-mul}
use net_audit.Common.{
  Bool-cases, length, All, all, ℕ, zero, suc, ◌+◌, ◌*◌, ◌≤◌, ◌≡◌, refl, ◌≢◌, ◌⊎◌, inl, inr, true,
  Option, none, some, List, [], ◌∷◌, arith,
}

abbrev pub scan_of : {A : Type 0} → Progress A → Scan
scan_of (going a s) = s
scan_of (stopped a s) = s
scan_of (raised error s) = s

-- The connections tried are of hosts and ports with two properties; all but `raising` of them are
-- counted, and they are few.
abbrev pub Tried : (ℕ → Type 0) → (ℤ → Type 0) → ℕ → ℕ → Scan → Type 0
Tried P Q raising bound s =
    All (λ c. P c.0 × Q c.1) s.tried
    × (length s.tried ≡ raising + s.scanned)
    × (length s.tried ≤ bound)

-- The connections that raised: the last one, in a scan that an exception ended.
abbrev pub raising_of : {A : Type 0} → Progress A → ℕ
raising_of (going a s) = 0
raising_of (stopped a s) = 0
raising_of (raised error s) = 1

abbrev pub TriedBy : {A : Type 0} → (ℕ → Type 0) → (ℤ → Type 0) → ℕ → Progress A → Type 0
TriedBy P Q bound r = Tried P Q (raising_of r) bound (scan_of r)

pub Progress-cases :
    {A : Type 0} (r : Progress A)
    → ((e : Text) × (s : Scan) × (r ≡ raised e s))
      ⊎ (((a : A) × (s : Scan) × (r ≡ stopped a s)) ⊎ ((a : A) × (s : Scan) × (r ≡ going a s)))
Progress-cases (raised e s) = inl (e, s, refl)
Progress-cases (stopped a s) = inr (inl (a, s, refl))
Progress-cases (going a s) = inr (inr (a, s, refl))

module _ (P : ℕ → Type 0) (Q : ℤ → Type 0) (connector : Connector) where
  more : (raising b c : ℕ) (s : Scan) → b ≤ c → Tried P Q raising b s → Tried P Q raising c s
  more raising b c s less h = (h.0, h.1, omega (arith, h.2))

  scan_ports-Tried :
      (host b : ℕ) (ports found : List ℤ) (s : Scan)
      → P host
      → All Q ports
      → Tried P Q 0 b s
      → TriedBy P Q (b + length ports) (scan_ports connector host ports found s)
  unfolding scan_ports
  scan_ports-Tried host b [] found s p q h = more 0 b (b + 0) s (omega arith) h
  scan_ports-Tried host b (port ∷ ports) found s p q h =
      let one : Tried P Q 0 (b + 1) (attempted host port (look s)) =
        (((p, q.0), h.0), omega (arith, h.1), omega (arith, h.2)) in
      elim (Bool-cases (is_set s.signal)) [
        | inl set ↦
            rw (set, scan_of, raising_of) (more 0 b (b + suc (length ports)) s (omega arith) h)
        | inr unset ↦ elim (Attempt-cases (connector host port)) [
          | inl (error, e) ↦
              rw (unset, e, scan_of, raising_of)
                (((p, q.0), h.0), omega (arith, h.1), omega (arith, h.2))
          | inr (is_open, e) ↦ elim (Bool-cases (is_set (looked s.signal))) [
            | inl set ↦
                rw (unset, e, set, scan_of, raising_of)
                  (more 0 (b + 1) (b + suc (length ports)) (attempted host port (look s))
                    (omega arith) one)
            | inr clear ↦
                rw (unset, e, clear, scan_of, raising_of)
                  (more
                    (raising_of (
                      scan_ports connector host ports (if_open is_open port found)
                        (look (attempted host port (look s)))))
                    (b + 1 + length ports) (b + suc (length ports))
                    (scan_of (
                      scan_ports connector host ports (if_open is_open port found)
                        (look (attempted host port (look s)))))
                    (omega arith)
                    (scan_ports-Tried host (b + 1) ports (if_open is_open port found)
                      (look (attempted host port (look s))) p q.1 one))
          ]
        ]
      ]

  add_result-Tried :
      (host b : ℕ) (found : List ℤ) (s : Scan)
      → Tried P Q 0 b s
      → Tried P Q 0 b (add_result connector host found s)
  add_result-Tried host b [] s h = h
  add_result-Tried host b (f ∷ found) s h = h

  scan_all-Tried :
      (b : ℕ) (hosts : List ℕ) (ports : List ℤ) (s : Scan)
      → All P hosts
      → All Q ports
      → Tried P Q 0 b s
      → TriedBy P Q (b + length hosts * length ports) (scan_all connector hosts ports s)
  unfolding scan_all
  scan_all-Tried b [] ports s p q h = more 0 b (b + 0 * length ports) s (omega arith) h
  scan_all-Tried b (host ∷ hosts) ports s p q h =
      let all : ℕ = b + suc (length hosts) * length ports in
      let step : b + length ports + length hosts * length ports ≡ all =
        omega (arith, suc-mul (length hosts) (length ports)) in
      let row = scan_ports-Tried host b ports [] (look s) p.0 q h in
      elim (Bool-cases (is_set s.signal)) [
        | inl set ↦ rw (set, scan_of, raising_of) (more 0 b all s (omega (arith, step)) h)
        | inr unset ↦ elim (Progress-cases (scan_ports connector host ports [] (look s))) [
          | inl (error, s', e) ↦
              rw (unset, e, scan_of, raising_of)
                (more 1 (b + length ports) all s' (omega (arith, step))
                  (subst (λ r. TriedBy P Q (b + length ports) r) e row))
          | inr (inl (found, s', e)) ↦
              rw (unset, e, scan_of, raising_of)
                (more 0 (b + length ports) all (add_result connector host found s')
                  (omega (arith, step))
                  (add_result-Tried host (b + length ports) found s'
                    (subst (λ r. TriedBy P Q (b + length ports) r) e row)))
          | inr (inr (found, s', e)) ↦
              let here : Tried P Q 0 (b + length ports) (add_result connector host found s') =
                add_result-Tried host (b + length ports) found s'
                  (subst (λ r. TriedBy P Q (b + length ports) r) e row) in
              elim (Bool-cases (is_set s'.signal)) [
                | inl set ↦
                    rw (unset, e, set, scan_of, raising_of)
                      (more 0 (b + length ports) all (add_result connector host found s')
                        (omega (arith, step)) here)
                | inr clear ↦
                    rw (unset, e, clear, scan_of, raising_of)
                      (more
                        (raising_of (
                          scan_all connector hosts ports
                            (look (add_result connector host found s'))))
                        (b + length ports + length hosts * length ports) all
                        (scan_of (
                          scan_all connector hosts ports
                            (look (add_result connector host found s'))))
                        (omega (arith, step))
                        (scan_all-Tried (b + length ports) hosts ports
                          (look (add_result connector host found s')) p.1 q here))
              ]
        ]
      ]

ended_scan : (job : Job) (r : Progress Unit) → (ended job r).scan ≡ scan_of r
ended_scan job (going u s) = refl
ended_scan job (stopped u s) = refl
ended_scan job (raised e s) = refl

-- The connections that raised, as the job's status tells.
abbrev pub raising_by : JobStatus → ℕ
raising_by status = elim status [ errored ↦ 1 | _ ↦ 0 ]

final_status_raising : (signal : Signal) → raising_by (final_status signal) ≡ 0
final_status_raising none = refl
final_status_raising (some zero) = refl
final_status_raising (some (suc n)) = refl

ended_raising : (job : Job) (r : Progress Unit) → raising_by (ended job r).status ≡ raising_of r
ended_raising job (going u s) = final_status_raising s.signal
ended_raising job (stopped u s) = final_status_raising s.signal
ended_raising job (raised e s) = refl

final_status_ends : (signal : Signal) → final_status signal ≢ running
final_status_ends none h = cc
final_status_ends (some zero) h = cc
final_status_ends (some (suc n)) h = cc

ended_ends : (job : Job) (r : Progress Unit) → (ended job r).status ≢ running
ended_ends job (going u s) = final_status_ends s.signal
ended_ends job (stopped u s) = final_status_ends s.signal
ended_ends job (raised e s) = λ h. cc

all→All :
    (ports : List ℤ) → all is_valid_port ports ≡ true → All (λ p. is_valid_port p ≡ true) ports
all→All [] h = tt
all→All (p ∷ ports) h = (ground arith, all→All ports (ground arith))

-- What is known of the run of a started job.
abbrev pub StaysInBounds : Connector → List ParsedNetwork → Started → Type 0
StaysInBounds connector interfaces (started job) =
    Tried (λ h. IsPrivate h × InSome interfaces h) (λ p. is_valid_port p ≡ true)
      (raising_by (run connector job).status) job.total (run connector job).scan
    × ((run connector job).status ≢ running)
StaysInBounds connector interfaces _ = Unit

-- A new job has tried nothing yet.
abbrev IsNew : Started → Type 0
IsNew (started job) = (job.scan.tried ≡ []) × (job.scan.scanned ≡ 0)
IsNew _ = Unit

new_job-IsNew :
    (job_id : Text) (signal : Signal) (ports : List ℤ) (rate_limit_pps : ℤ) (v : Validated)
    → IsNew (new_job job_id signal ports rate_limit_pps v)
new_job-IsNew job_id signal ports rate_limit_pps (refused error) = tt
new_job-IsNew job_id signal ports rate_limit_pps (accepted n) = (refl, refl)

start_scan-IsNew :
    (current : Option Job) (job_id : Text) (signal : Signal) (subnet : ParsedNetwork)
    (ports : List ℤ) (rate_limit_pps : ℤ) (interfaces : List ParsedNetwork)
    → IsNew (start_scan current job_id signal subnet ports rate_limit_pps interfaces)
unfolding start_scan
start_scan-IsNew current job_id signal subnet ports rate_limit_pps interfaces =
    elim (Bool-cases (is_running current)) [
      | inl busy ↦ rw busy tt
      | inr free ↦ rw free (
          new_job-IsNew job_id signal ports rate_limit_pps
            (validate_scan_request subnet ports rate_limit_pps interfaces))
    ]

bounded-StaysInBounds :
    (connector : Connector) (interfaces : List ParsedNetwork) (r : Started)
    → IsBounded interfaces r
    → IsNew r
    → StaysInBounds connector interfaces r
unfolding run
bounded-StaysInBounds connector interfaces already_running b n = tt
bounded-StaysInBounds connector interfaces (not_valid error) b n = tt
bounded-StaysInBounds connector interfaces (started job) b n =
    let P : ℕ → Type 0 = (λ h. IsPrivate h × InSome interfaces h) in
    let Q : ℤ → Type 0 = (λ p. is_valid_port p ≡ true) in
    let fresh : Tried P Q 0 0 job.scan = rw (n.0, n.1) (tt, refl, omega arith) in
    (
      rw
          (
            ended_raising job (scan_all connector job.hosts job.ports job.scan),
            ended_scan job (scan_all connector job.hosts job.ports job.scan),
            b.3,
          )
          (more P Q connector (raising_of (scan_all connector job.hosts job.ports job.scan))
            (0 + length job.hosts * length job.ports) (length job.hosts * length job.ports)
            (scan_of (scan_all connector job.hosts job.ports job.scan)) (omega arith)
            (scan_all-Tried P Q connector 0 job.hosts job.ports job.scan b.1
              (all→All job.ports b.2.1) fresh)),
      ended_ends job (scan_all connector job.hosts job.ports job.scan),
    )

-- Whatever is asked for, and whatever the connections come to: a scan that is started tries only
-- valid ports of private addresses in the network of an interface, makes at most as many tries as its
-- total says, and ends with another status than running, exceptions included. Its count is the number of
-- its tries, or, if it ends with an error, one less: the try that raised is not counted.
pub start_scan-StaysInBounds :
    (connector : Connector) (current : Option Job) (job_id : Text) (signal : Signal)
    (subnet : ParsedNetwork) (ports : List ℤ) (rate_limit_pps : ℤ) (interfaces : List ParsedNetwork)
    → StaysInBounds connector interfaces
        (start_scan current job_id signal subnet ports rate_limit_pps interfaces)
start_scan-StaysInBounds connector current job_id signal subnet ports rate_limit_pps interfaces =
    bounded-StaysInBounds connector interfaces
      (start_scan current job_id signal subnet ports rate_limit_pps interfaces)
      (start_scan-IsBounded current job_id signal subnet ports rate_limit_pps interfaces)
      (start_scan-IsNew current job_id signal subnet ports rate_limit_pps interfaces)
