-- ===== src/LanScan/Complete.antt =====
-- A scan that is not cancelled and whose connections raise nothing is complete.
use net_audit.LanScan.{Validated, ParsedNetwork, refused, accepted, validate_scan_request}
use net_audit.Common.Text.{Text}
use native.Mathlib.Nat.{suc-mul}
use net_audit.Common.Attempt.{done}
use net_audit.LanScan.Job.{
  scan_ports, Scan, going, if_open, add_result, scan_all, Started, run, start_scan, started,
  completed, Job, new_job, is_running, scan_hosts,
}
use net_audit.LanScan.Job.{HostResult}
use net_audit.LanScan.Job.{Connector}
use net_audit.Common.Int.{ℤ}
use net_audit.Common.{
  if◌then◌else◌, Bool-cases, length, ℕ, ◌+◌, ◌*◌, ◌≡◌, refl, sym, ap, ◌∙◌, ◌⊎◌, inl, inr, Bool,
  none, List, [], ◌∷◌, ◌++◌, arith, Option,
}

append-snoc {ℓ} :
    {A : Type ℓ} (xs : List A) (y : A) (zs : List A) → (xs ++ (y ∷ [])) ++ zs ≡ xs ++ (y ∷ zs)
append-snoc [] y zs = refl
append-snoc (x ∷ xs) y zs = ap (λ r. x ∷ r) (append-snoc xs y zs)

append_nil {ℓ} : {A : Type ℓ} (xs : List A) → xs ++ [] ≡ xs
append_nil [] = refl
append_nil (x ∷ xs) = ap (λ r. x ∷ r) (append_nil xs)

List-cases {ℓ} :
    {A : Type ℓ} (xs : List A) → (xs ≡ []) ⊎ ((x : A) × (rest : List A) × (xs ≡ x ∷ rest))
List-cases [] = inl refl
List-cases (x ∷ rest) = inr (x, rest, refl)

module _ (is_open : ℕ → ℤ → Bool) where
  -- Connections that never raise.
  abbrev pub answers : Connector
  answers host port = done (is_open host port)

  abbrev pub open_of : ℕ → List ℤ → List ℤ
  open_of host [] = []
  open_of host (port ∷ ports) =
      if is_open host port then port ∷ open_of host ports else open_of host ports

  -- The hosts with an open port, in order, each with its open ports.
  abbrev pub expected : List ℕ → List ℤ → List HostResult
  expected [] ports = []
  expected (host ∷ hosts) ports = elim (open_of host ports) [
    | [] ↦ expected hosts ports
    | p ∷ ps ↦ record { ip = host; open_ports = p ∷ ps } ∷ expected hosts ports
  ]

  joined :
      (host : ℕ) (port : ℤ) (ports found : List ℤ)
      → if_open (is_open host port) port found ++ open_of host ports
        ≡ found ++ open_of host (port ∷ ports)
  joined host port ports found = elim (Bool-cases (is_open host port)) [
    | inl answered ↦ rw answered (append-snoc found port (open_of host ports))
    | inr silent ↦ rw silent refl
  ]

  -- A state whose cancel event is never set.
  abbrev pub calm : ℕ → List (ℕ × ℤ) → List HostResult → Scan
  calm scanned tried results = record {
    signal = none;
    scanned = scanned;
    tried = tried;
    results = results;
  }

  scan_ports-open_of :
      (host : ℕ) (ports found : List ℤ) (n m : ℕ) (tried : List (ℕ × ℤ)) (results : List HostResult)
      → m ≡ n + length ports
      → (tried' : List (ℕ × ℤ)) × (scan_ports answers host ports found (calm n tried results)
          ≡ going (found ++ open_of host ports) (calm m tried' results))
  unfolding scan_ports
  scan_ports-open_of host [] found n m tried results h =
      let same : m ≡ n = omega arith in
      (tried, rw same (ap (λ f. going f (calm n tried results)) (sym (append_nil found))))
  scan_ports-open_of host (port ∷ ports) found n m tried results h =
      let (tried', e) =
        scan_ports-open_of host ports (if_open (is_open host port) port found) (n + 1) m
          ((host, port) ∷ tried) results (omega arith) in
      (tried', e ∙ ap (λ f. going f (calm m tried' results)) (joined host port ports found))

  -- The results, with those of a host added if it has an open port.
  abbrev pub with_host : ℕ → List ℤ → List HostResult → List HostResult
  with_host host [] results = results
  with_host host (p ∷ ps) results = results ++ (record { ip = host; open_ports = p ∷ ps } ∷ [])

  add_result-with_host :
      (host : ℕ) (found : List ℤ) (n : ℕ) (tried : List (ℕ × ℤ)) (results : List HostResult)
      → add_result answers host found (calm n tried results)
        ≡ calm n tried (with_host host found results)
  add_result-with_host host [] n tried results = refl
  add_result-with_host host (p ∷ ps) n tried results = refl

  with_host-expected :
      (host : ℕ) (hosts : List ℕ) (ports : List ℤ) (results : List HostResult)
      → with_host host (open_of host ports) results ++ expected hosts ports
        ≡ results ++ expected (host ∷ hosts) ports
  with_host-expected host hosts ports results = elim (List-cases (open_of host ports)) [
    | inl none_open ↦ rw (none_open, expected) refl
    | inr (p, ps, some_open) ↦
        rw (some_open, expected)
          (append-snoc results (record { ip = host; open_ports = p ∷ ps }) (expected hosts ports))
  ]

  scan_all-expected :
      (hosts : List ℕ) (ports : List ℤ) (n m : ℕ) (tried : List (ℕ × ℤ)) (results : List HostResult)
      → m ≡ n + length hosts * length ports
      → (tried' : List (ℕ × ℤ)) × (scan_all answers hosts ports (calm n tried results)
          ≡ going tt (calm m tried' (results ++ expected hosts ports)))
  unfolding scan_all
  scan_all-expected [] ports n m tried results h =
      let same : m ≡ n = omega arith in
      (tried, rw same (ap (λ r. going tt (calm n tried r)) (sym (append_nil results))))
  scan_all-expected (host ∷ hosts) ports n m tried results h =
      let found : List ℤ = open_of host ports in
      let (tried1, e) = scan_ports-open_of host ports [] n (n + length ports) tried results refl in
      let (tried2, f) =
        scan_all-expected hosts ports (n + length ports) m tried1 (with_host host found results)
          (omega (arith, h, suc-mul (length hosts) (length ports))) in
      (
        tried2,
        rw (e, scan_all, add_result-with_host host found (n + length ports) tried1 results)
            (f
              ∙ ap (λ r. going tt (calm m tried2 r)) (with_host-expected host hosts ports results)),
      )

  -- What the run of a started job comes to.
  abbrev pub RunsToEnd : Started → Type 0
  RunsToEnd (started job) =
      ((run answers job).status ≡ completed)
      × ((run answers job).scan.scanned ≡ job.total)
      × ((run answers job).scan.results ≡ expected job.hosts job.ports)
  RunsToEnd _ = Unit

  new_job-RunsToEnd :
      (job_id : Text) (ports : List ℤ) (rate_limit_pps : ℤ) (v : Validated)
      → RunsToEnd (new_job job_id none ports rate_limit_pps v)
  unfolding run
  new_job-RunsToEnd job_id ports rate_limit_pps (refused error) = tt
  new_job-RunsToEnd job_id ports rate_limit_pps (accepted n) =
      let hosts : List ℕ = scan_hosts n in
      let (tried, e) =
        scan_all-expected hosts ports 0 (length hosts * length ports) [] [] (omega arith) in
      rw e (refl, refl, refl)

  -- A scan that is never cancelled, and whose connections give an answer each, completes: it tries as
  -- many connections as its total says, and reports exactly the hosts with an open port, in order, each
  -- with its open ports.
  pub start_scan-RunsToEnd :
      (current : Option Job) (job_id : Text) (subnet : ParsedNetwork) (ports : List ℤ)
      (rate_limit_pps : ℤ) (interfaces : List ParsedNetwork)
      → RunsToEnd (start_scan current job_id none subnet ports rate_limit_pps interfaces)
  unfolding start_scan
  start_scan-RunsToEnd current job_id subnet ports rate_limit_pps interfaces =
      elim (Bool-cases (is_running current)) [
        | inl busy ↦ rw busy tt
        | inr free ↦ rw free (
            new_job-RunsToEnd job_id ports rate_limit_pps
              (validate_scan_request subnet ports rate_limit_pps interfaces))
      ]
