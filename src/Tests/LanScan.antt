-- ===== src/Tests/LanScan.antt =====
-- A scan of a small network.
use net_audit.LanScan.Complete.{RunsToEnd, start_scan-RunsToEnd}
use net_audit.Common.Attempt.{done, failed}
use net_audit.Common.Text.{codes}
use net_audit.LanScan.Job.{start_scan, started, run}
use net_audit.LanScan.Job.{Started}
use net_audit.LanScan.Coverage.{StaysInBounds, start_scan-StaysInBounds}
use net_audit.LanScan.Job.{Connector}
use net_audit.LanScan.Bounds.{IsBounded, start_scan-IsBounded}
use net_audit.Common.Int.{ℤ, pos, negsuc}
use net_audit.LanScan.{ParsedNetwork, v4, invalid}
use net_audit.Common.{
  ◌==◌, if◌then◌else◌, ℕ, ◌≡◌, refl, true, false, none, List, [], ◌∷◌, Bool, length,
}

-- 192.168.1.0/30 and the machine's own network.
abbrev tiny : ParsedNetwork
tiny = v4 (record { base = 0xC0A80100; prefixlen = 30 })

abbrev home : List ParsedNetwork
home = invalid ∷ v4 (record { base = 0xC0A80100; prefixlen = 24 }) ∷ []

abbrev two_ports : List ℤ
two_ports = pos 22 ∷ pos 443 ∷ []

start_scan-IsBounded_example :
    IsBounded home (start_scan none (codes "scan_1") none tiny two_ports (pos 50) home)
start_scan-IsBounded_example =
    start_scan-IsBounded none (codes "scan_1") none tiny two_ports (pos 50) home

-- Only port 22 of the second host is open, and the last connection raises.
abbrev connector : Connector
connector host port = elim (host == 0xC0A80102) [
  | true ↦ elim port [
    | pos n ↦ if n == 22 then done true else failed (codes "reset")
    | negsuc n ↦ done false
  ]
  | false ↦ done false
]

start_scan-StaysInBounds_example :
    StaysInBounds connector home
      (start_scan none (codes "scan_1") none tiny two_ports (pos 50) home)
start_scan-StaysInBounds_example =
    start_scan-StaysInBounds connector none (codes "scan_1") none tiny two_ports (pos 50) home

abbrev tried_of : Started → ℕ × ℕ
tried_of (started job) = ((run connector job).scan.scanned, length (run connector job).scan.tried)
tried_of _ = (0, 0)

-- The fourth connection raises: it is tried and not counted.
tiny_scan : tried_of (start_scan none (codes "scan_1") none tiny two_ports (pos 50) home) ≡ (3, 4)
unfolding start_scan run
tiny_scan = refl

abbrev answering : ℕ → ℤ → Bool
answering host (pos n) = n == 22
answering host (negsuc n) = false

start_scan-RunsToEnd_example :
    RunsToEnd answering (start_scan none (codes "scan_1") none tiny two_ports (pos 50) home)
start_scan-RunsToEnd_example =
    start_scan-RunsToEnd answering none (codes "scan_1") tiny two_ports (pos 50) home
