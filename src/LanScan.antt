-- ===== src/LanScan.antt =====
-- lanscan/: the scan of a local network. This file is lanscan/validation.py: what may be scanned.
pub mod Job
pub mod Bounds
pub mod Coverage
pub mod Complete
use net_audit.Common.Int.{ℤ, pos, negsuc}
use net_audit.Common.{
  ltb, leb, ◌==◌, if◌then◌else◌, length, all, any, ℕ, suc, ◌+◌, ◌-◌, ◌^◌, min, max, Bool, false,
  not, ◌&&◌, ◌||◌, Option, none, some, List, [], ◌∷◌, arith,
}

-- An IPv4 network: its first address as a number, and the length of its prefix.
pub record Network : Type 0 where
  pub base : ℕ
  pub prefixlen : ℕ

-- What `ipaddress.ip_network` makes of a text.
pub data ParsedNetwork : Type 0 where
  invalid v6 : ParsedNetwork
  v4 : Network → ParsedNetwork

abbrev pub num_addresses : Network → ℕ
num_addresses n = 2 ^ (32 - n.prefixlen)

-- `subnet_of`: between the first and the last address of the other. Equal networks are subnets.
unfoldable pub subnet_of : Network → Network → Bool
subnet_of n m = leb m.base n.base && leb (n.base + num_addresses n) (m.base + num_addresses m)

abbrev pub rfc1918_nets : List Network
rfc1918_nets =
    (record { base = 0x0A000000; prefixlen = 8 })
    ∷ (record { base = 0xAC100000; prefixlen = 12 })
    ∷ (record { base = 0xC0A80000; prefixlen = 16 })
    ∷ []

unfoldable pub is_rfc1918 : Network → Bool
unfolding subnet_of
is_rfc1918 n = any (subnet_of n) rfc1918_nets

-- The network of an interface; one that cannot be read, or is not IPv4, is passed over.
abbrev pub matches : Network → ParsedNetwork → Bool
matches n (v4 m) = subnet_of n m
matches n _ = false

unfoldable pub matches_local_interface : Network → List ParsedNetwork → Bool
unfolding subnet_of
matches_local_interface n interfaces = any (matches n) interfaces

pub data ScanError : Type 0 where
  invalid_subnet not_rfc1918 subnet_too_large no_ports too_many_ports invalid_port : ScanError
  duplicate_ports invalid_rate_limit rate_limit_too_high no_matching_interface : ScanError

pub data Validated : Type 0 where
  refused : ScanError → Validated
  accepted : Network → Validated

abbrev pub max_ports : ℕ
max_ports = 20

abbrev pub max_rate_limit_pps : ℕ
max_rate_limit_pps = 100

abbrev pub min_prefixlen : ℕ
min_prefixlen = 24

abbrev pub is_valid_port : ℤ → Bool
is_valid_port (pos p) = leb 1 p && leb p 65535
is_valid_port (negsuc p) = false

abbrev pub same_int : ℤ → ℤ → Bool
same_int (pos a) (pos b) = a == b
same_int (negsuc a) (negsuc b) = a == b
same_int _ _ = false

-- len(set(ports)) != len(ports)
unfoldable pub has_duplicates : List ℤ → Bool
has_duplicates [] = false
has_duplicates (p ∷ ps) = any (same_int p) ps || has_duplicates ps

abbrev pub is_positive : ℤ → Bool
is_positive (pos n) = ltb 0 n
is_positive (negsuc n) = false

abbrev pub is_above : ℤ → ℕ → Bool
is_above (pos n) limit = ltb limit n
is_above (negsuc n) limit = false

-- The checks on the ports and the rate: the first that fails.
unfoldable pub request_error : List ℤ → ℤ → Option ScanError
unfolding has_duplicates
request_error ports rate_limit_pps =
    if length ports == 0
    then some no_ports
    else if ltb max_ports (length ports)
    then some too_many_ports
    else if not (all is_valid_port ports)
    then some invalid_port
    else if has_duplicates ports
    then some duplicate_ports
    else if not (is_positive rate_limit_pps)
    then some invalid_rate_limit
    else if is_above rate_limit_pps max_rate_limit_pps
    then some rate_limit_too_high
    else none

abbrev pub checked : Option ScanError → Network → List ParsedNetwork → Validated
checked (some error) n interfaces = refused error
checked none n interfaces =
    if matches_local_interface n interfaces then accepted n else refused no_matching_interface

abbrev pub validate_network : Network → List ℤ → ℤ → List ParsedNetwork → Validated
validate_network n ports rate_limit_pps interfaces =
    if not (is_rfc1918 n)
    then refused not_rfc1918
    else if ltb n.prefixlen min_prefixlen
    then refused subnet_too_large
    else checked (request_error ports rate_limit_pps) n interfaces

unfoldable pub validate_scan_request : ParsedNetwork → List ℤ → ℤ → List ParsedNetwork → Validated
unfolding is_rfc1918 request_error matches_local_interface
validate_scan_request invalid ports rate_limit_pps interfaces = refused invalid_subnet
validate_scan_request v6 ports rate_limit_pps interfaces = refused invalid_subnet
validate_scan_request (v4 n) ports rate_limit_pps interfaces =
    validate_network n ports rate_limit_pps interfaces
