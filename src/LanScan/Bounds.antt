-- ===== src/LanScan/Bounds.antt =====
-- What a scan may reach: private addresses only, and few of them.
use net_audit.Common.Int.{ℤ}
use net_audit.Common.Text.{Text}
use net_audit.LanScan.{
  is_rfc1918, Network, subnet_of, num_addresses, request_error, ParsedNetwork,
  validate_scan_request, v4, matches, matches_local_interface, invalid, Validated, is_valid_port,
  v6, accepted, min_prefixlen, has_duplicates, refused, is_positive, is_above,
}
use net_audit.LanScan.Job.{
  scan_hosts, start_scan, Started, Signal, started, Job, new_job, is_running,
}
use net_audit.LanScan.Job.{range}
use net_audit.Common.{
  leb, Bool-cases, length, All, ℕ, zero, suc, ◌+◌, ◌-◌, ◌^◌, ◌≤◌, ◌<◌, ◌≡◌, refl, ◌⊎◌, inl, inr,
  true, arith, List, ◌∷◌, any, Option, all, none, [], ltb, ◌*◌, some-cases, false, ltb→ge,
}

-- An address in 10/8, 172.16/12 or 192.168/16.
abbrev pub IsPrivate : ℕ → Type 0
IsPrivate h =
    ((0x0A000000 ≤ h) × (h < 0x0B000000))
    ⊎ (((0xAC100000 ≤ h) × (h < 0xAC200000)) ⊎ ((0xC0A80000 ≤ h) × (h < 0xC0A90000)))

range-All :
    (P : ℕ → Type 0) (first count : ℕ)
    → ((h : ℕ) → first ≤ h → h < first + count → P h)
    → All P (range first count)
unfolding range
range-All P first zero inside = tt
range-All P first (suc count) inside = (
  inside first (omega arith) (omega arith),
  range-All P (first + 1) count (λ h low high. inside h (omega arith) (omega arith)),
)

length-range : (first count : ℕ) → length (range first count) ≡ count
unfolding range
length-range first zero = refl
length-range first (suc count) = omega (arith, length-range (first + 1) count)

scan_hosts-All :
    (P : ℕ → Type 0) (n : Network)
    → ((h : ℕ) → n.base ≤ h → h < n.base + num_addresses n → P h)
    → All P (scan_hosts n)
unfolding scan_hosts
scan_hosts-All P n inside = elim (Bool-cases (leb (num_addresses n) 2)) [
  | inl few ↦ rw few (range-All P n.base (num_addresses n) inside)
  | inr many ↦ rw many (
      range-All P (n.base + 1) (num_addresses n - 2)
        (λ h low high. inside h (omega arith) (ground arith)))
]

length-scan_hosts : (n : Network) → length (scan_hosts n) ≤ num_addresses n
unfolding scan_hosts
length-scan_hosts n =
    ground (
      arith,
      length-range n.base (num_addresses n),
      length-range (n.base + 1) (num_addresses n - 2),
    )

small_power : (k : ℕ) → k ≤ 8 → 2 ^ k ≤ 256
small_power zero h = omega arith
small_power (suc zero) h = omega arith
small_power (suc (suc zero)) h = omega arith
small_power (suc (suc (suc zero))) h = omega arith
small_power (suc (suc (suc (suc zero)))) h = omega arith
small_power (suc (suc (suc (suc (suc zero))))) h = omega arith
small_power (suc (suc (suc (suc (suc (suc zero)))))) h = omega arith
small_power (suc (suc (suc (suc (suc (suc (suc zero))))))) h = omega arith
small_power (suc (suc (suc (suc (suc (suc (suc (suc zero)))))))) h = omega arith
small_power (suc (suc (suc (suc (suc (suc (suc (suc (suc k))))))))) h = absurd (omega arith)

rfc1918-IsPrivate :
    (n : Network) (h : ℕ)
    → is_rfc1918 n ≡ true
    → n.base ≤ h
    → h < n.base + num_addresses n
    → IsPrivate h
unfolding is_rfc1918 subnet_of
rfc1918-IsPrivate n h r low high = ground arith

-- At most 20 ports, each valid and none twice, and a rate of 1 to 100 a second.
abbrev pub RequestFits : List ℤ → ℤ → Type 0
RequestFits ports rate_limit_pps =
    (length ports ≤ 20)
    × (all is_valid_port ports ≡ true)
    × (has_duplicates ports ≡ false)
    × (is_positive rate_limit_pps ≡ true)
    × (is_above rate_limit_pps 100 ≡ false)

request_error-RequestFits :
    (ports : List ℤ) (rate_limit_pps : ℤ)
    → request_error ports rate_limit_pps ≡ none
    → RequestFits ports rate_limit_pps
unfolding request_error
request_error-RequestFits ports rate_limit_pps h =
    (ground arith, ground arith, ground arith, ground arith, ground arith)

-- A job that is started: at most 256 hosts, all private and in the network of an interface, and a
-- request that fits.
abbrev pub InNetwork : ℕ → ParsedNetwork → Type 0
InNetwork h (v4 m) = (m.base ≤ h) × (h < m.base + num_addresses m)
InNetwork h _ = ⊥

abbrev pub InSome : List ParsedNetwork → ℕ → Type 0
InSome [] h = ⊥
InSome (i ∷ interfaces) h = InNetwork h i ⊎ InSome interfaces h

subnet-InNetwork :
    (n : Network) (i : ParsedNetwork) (h : ℕ)
    → matches n i ≡ true
    → n.base ≤ h
    → h < n.base + num_addresses n
    → InNetwork h i
unfolding subnet_of
subnet-InNetwork n invalid h m low high = cc
subnet-InNetwork n v6 h m low high = cc
subnet-InNetwork n (v4 k) h m low high = (ground arith, ground arith)

matches-InSome :
    (n : Network) (interfaces : List ParsedNetwork) (h : ℕ)
    → any (matches n) interfaces ≡ true
    → n.base ≤ h
    → h < n.base + num_addresses n
    → InSome interfaces h
matches-InSome n [] h m low high = cc
matches-InSome n (i ∷ interfaces) h m low high = elim (Bool-cases (matches n i)) [
  | inl here ↦ inl (subnet-InNetwork n i h here low high)
  | inr elsewhere ↦ inr (matches-InSome n interfaces h (ground arith) low high)
]

abbrev pub IsBounded : List ParsedNetwork → Started → Type 0
IsBounded interfaces (started job) =
    (length job.hosts ≤ 256)
    × All (λ h. IsPrivate h × InSome interfaces h) job.hosts
    × RequestFits job.ports job.rate_limit_pps
    × (job.total ≡ length job.hosts * length job.ports)
IsBounded interfaces _ = Unit

abbrev IsChecked : List ℤ → ℤ → List ParsedNetwork → Validated → Type 0
IsChecked ports rate_limit_pps interfaces (accepted n) =
    (is_rfc1918 n ≡ true)
    × (min_prefixlen ≤ n.prefixlen)
    × RequestFits ports rate_limit_pps
    × (any (matches n) interfaces ≡ true)
IsChecked ports rate_limit_pps interfaces (refused error) = Unit

validate-IsChecked :
    (subnet : ParsedNetwork) (ports : List ℤ) (rate_limit_pps : ℤ) (interfaces : List ParsedNetwork)
    → IsChecked ports rate_limit_pps interfaces
        (validate_scan_request subnet ports rate_limit_pps interfaces)
unfolding validate_scan_request matches_local_interface
validate-IsChecked invalid ports rate_limit_pps interfaces = tt
validate-IsChecked v6 ports rate_limit_pps interfaces = tt
validate-IsChecked (v4 n) ports rate_limit_pps interfaces = elim (Bool-cases (is_rfc1918 n)) [
  | inr public ↦ rw public tt
  | inl private ↦ elim (Bool-cases (ltb n.prefixlen min_prefixlen)) [
    | inl large ↦ rw (private, large) tt
    | inr small ↦ elim (some-cases (request_error ports rate_limit_pps)) [
      | inr (error, wrong) ↦ rw (private, small, wrong) tt
      | inl right ↦ elim (Bool-cases (any (matches n) interfaces)) [
        | inr elsewhere ↦ rw (private, small, right, elsewhere) tt
        | inl here ↦
            rw (private, small, right, here)
              (
                private,
                ltb→ge n.prefixlen min_prefixlen small,
                request_error-RequestFits ports rate_limit_pps right,
                here,
              )
      ]
    ]
  ]
]

new_job-IsBounded :
    (job_id : Text) (signal : Signal) (ports : List ℤ) (rate_limit_pps : ℤ)
    (interfaces : List ParsedNetwork) (v : Validated)
    → IsChecked ports rate_limit_pps interfaces v
    → IsBounded interfaces (new_job job_id signal ports rate_limit_pps v)
new_job-IsBounded job_id signal ports rate_limit_pps interfaces (refused error) h = tt
new_job-IsBounded job_id signal ports rate_limit_pps interfaces (accepted n) h = (
  omega (arith, length-scan_hosts n, small_power (32 - n.prefixlen) (omega arith)),
  scan_hosts-All (λ a. IsPrivate a × InSome interfaces a) n
      (λ a low high.
        (rfc1918-IsPrivate n a h.0 low high, matches-InSome n interfaces a h.3 low high)),
  h.2,
  refl,
)

-- Whatever is asked for, a scan that `start_scan` starts has at most 256 hosts, each a private address
-- in the network of an interface; at most 20 ports, all valid and none twice; a rate of 1 to 100
-- connections a second; and its total is the number of hosts times the number of ports.
pub start_scan-IsBounded :
    (current : Option Job) (job_id : Text) (signal : Signal) (subnet : ParsedNetwork)
    (ports : List ℤ) (rate_limit_pps : ℤ) (interfaces : List ParsedNetwork)
    → IsBounded interfaces (start_scan current job_id signal subnet ports rate_limit_pps interfaces)
unfolding start_scan
start_scan-IsBounded current job_id signal subnet ports rate_limit_pps interfaces =
    elim (Bool-cases (is_running current)) [
      | inl busy ↦ rw busy tt
      | inr free ↦ rw free (
          new_job-IsBounded job_id signal ports rate_limit_pps interfaces
            (validate_scan_request subnet ports rate_limit_pps interfaces)
            (validate-IsChecked subnet ports rate_limit_pps interfaces))
    ]
