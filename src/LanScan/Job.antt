-- ===== src/LanScan/Job.antt =====
-- lanscan/service.py: one scan at a time, and the run of a scan.
use net_audit.Common.Attempt.{Attempt, failed, done}
use net_audit.LanScan.{
  validate_scan_request, num_addresses, Validated, ParsedNetwork, refused, accepted,
}
use net_audit.LanScan.{ScanError}
use net_audit.Common.Text.{Text}
use net_audit.Common.Int.{ℤ}
use net_audit.LanScan.{Network}
use net_audit.Common.{
  leb, if◌then◌else◌, length, ℕ, zero, suc, ◌+◌, ◌-◌, ◌*◌, Bool, true, false, Option, none, some,
  List, [], ◌∷◌, ◌++◌,
}

-- `count` numbers from `first` on.
unfoldable pub range : ℕ → ℕ → List ℕ
range first zero = []
range first (suc count) = first ∷ range (first + 1) count

-- The addresses of a network, without its first and its last if there are more than two.
unfoldable pub scan_hosts : Network → List ℕ
unfolding range
scan_hosts n =
    if leb (num_addresses n) 2
    then range n.base (num_addresses n)
    else range (n.base + 1) (num_addresses n - 2)

pub record HostResult : Type 0 where
  pub ip : ℕ
  pub open_ports : List ℤ

-- The cancel event: never set, or found set after so many looks, and from then on.
abbrev pub Signal : Type 0
Signal = Option ℕ

abbrev pub is_set : Signal → Bool
is_set none = false
is_set (some zero) = true
is_set (some (suc n)) = false

abbrev pub looked : Signal → Signal
looked none = none
looked (some zero) = some zero
looked (some (suc n)) = some n

-- The state of the scan's thread, with the connections that it tried, the latest first.
pub record Scan : Type 0 where
  pub signal : Signal
  pub scanned : ℕ
  pub tried : List (ℕ × ℤ)
  pub results : List HostResult

pub data Progress (A : Type 0) : Type 0 where
  going : A → Scan → Progress A
  stopped : A → Scan → Progress A
  raised : Text → Scan → Progress A

abbrev pub look : Scan → Scan
look s = record s { signal = looked s.signal }

-- `try_connect`: whether a port of a host is open, or an exception.
abbrev pub Connector : Type 0
Connector = ℕ → ℤ → Attempt Bool

-- A connection is tried before it answers or raises, and counted behind its answer.
abbrev pub tries : ℕ → ℤ → Scan → Scan
tries host port s = record s { tried = (host, port) ∷ s.tried }

abbrev pub attempted : ℕ → ℤ → Scan → Scan
attempted host port s = record (tries host port s) { scanned = s.scanned + 1 }

abbrev pub if_open : Bool → ℤ → List ℤ → List ℤ
if_open true port found = found ++ (port ∷ [])
if_open false port found = found

module _ (connector : Connector) where
  -- The loop over the ports of a host; `found` are those that are open.
  unfoldable pub scan_ports : ℕ → List ℤ → List ℤ → Scan → Progress (List ℤ)
  scan_ports host [] found s = going found s
  scan_ports host (port ∷ ports) found s = elim (is_set s.signal) [
    | true ↦ stopped found s
    | false ↦ elim (connector host port) [
      | failed error ↦ raised error (tries host port (look s))
      | done is_open ↦ elim (is_set (looked s.signal)) [
        | true ↦ stopped (if_open is_open port found) (attempted host port (look s))
        | false ↦
            scan_ports host ports (if_open is_open port found) (look (attempted host port (look s)))
      ]
    ]
  ]

  abbrev pub add_result : ℕ → List ℤ → Scan → Scan
  add_result host [] s = s
  add_result host (p ∷ ps) s = record s {
    results = s.results ++ (record { ip = host; open_ports = p ∷ ps } ∷ []);
  }

  -- The loop over the hosts.
  unfoldable pub scan_all : List ℕ → List ℤ → Scan → Progress Unit
  unfolding scan_ports
  scan_all [] ports s = going tt s
  scan_all (host ∷ hosts) ports s = elim (is_set s.signal) [
    | true ↦ stopped tt s
    | false ↦ elim (scan_ports host ports [] (look s)) [
      | raised error s' ↦ raised error s'
      | stopped found s' ↦ stopped tt (add_result host found s')
      | going found s' ↦ elim (is_set s'.signal) [
        | true ↦ stopped tt (add_result host found s')
        | false ↦ scan_all hosts ports (look (add_result host found s'))
      ]
    ]
  ]

pub data JobStatus : Type 0 where
  running completed cancelled errored : JobStatus

pub record Job : Type 0 where
  pub job_id : Text
  pub hosts : List ℕ
  pub ports : List ℤ
  pub rate_limit_pps : ℤ
  pub total : ℕ
  pub status : JobStatus
  pub scan : Scan
  pub error : Option Text

abbrev pub final_status : Signal → JobStatus
final_status signal = if is_set signal then cancelled else completed

abbrev pub ended : Job → Progress Unit → Job
ended job (raised message s) = record job { status = errored; scan = s; error = some message }
ended job (stopped u s) = record job { status = final_status s.signal; scan = s }
ended job (going u s) = record job { status = final_status s.signal; scan = s }

-- `_run`: the thread of a job, from its start to its end.
unfoldable pub run : Connector → Job → Job
unfolding scan_all
run connector job = ended job (scan_all connector job.hosts job.ports job.scan)

pub data Started : Type 0 where
  already_running : Started
  not_valid : ScanError → Started
  started : Job → Started

abbrev pub is_running : Option Job → Bool
is_running none = false
is_running (some job) = elim job.status [ running ↦ true | _ ↦ false ]

abbrev pub new_job : Text → Signal → List ℤ → ℤ → Validated → Started
new_job job_id signal ports rate_limit_pps (refused error) = not_valid error
new_job job_id signal ports rate_limit_pps (accepted n) = started (record {
  job_id = job_id;
  hosts = scan_hosts n;
  ports = ports;
  rate_limit_pps = rate_limit_pps;
  total = length (scan_hosts n) * length ports;
  status = running;
  scan = record { signal = signal; scanned = 0; tried = []; results = [] };
  error = none;
})

-- `start_scan`: `current` is the last job, `signal` what will become of the new job's cancel event.
unfoldable pub start_scan :
    Option Job → Text → Signal → ParsedNetwork → List ℤ → ℤ → List ParsedNetwork → Started
unfolding scan_hosts validate_scan_request
start_scan current job_id signal subnet ports rate_limit_pps interfaces =
    if is_running current
    then already_running
    else new_job job_id signal ports rate_limit_pps
        (validate_scan_request subnet ports rate_limit_pps interfaces)
