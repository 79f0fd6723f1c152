-- ===== src/Alerts/Webhook.antt =====
-- alerts/webhook.py: the check of an address, and the one request that a send makes. `urlsplit`,
-- `getaddrinfo`, `ip_address` and the transport are parameters; the texts of the refusals are left out.
use net_audit.Alerts.Enrichment.Responses.{before_percent, is_public_ip}
use net_audit.Alerts.Enrichment.Responses.{is_empty}
use net_audit.Alerts.Enrichment.Responses.{Address}
use net_audit.Common.Text.{codes, text_eq, decimal, text_ltb}
use net_audit.Common.Attempt.{Attempt, failed, done}
use net_audit.Common.Text.{Text}
use net_audit.Common.{
  if◌then◌else◌, length, ℕ, zero, suc, Bool, Option, none, some, List, [], ◌∷◌, ◌++◌,
}

-- What `urlsplit` makes of an address; reading the port may raise a ValueError.
pub record SplitUrl : Type 0 where
  pub scheme : Text
  pub hostname : Option Text
  pub port : Attempt (Option ℕ)
  pub path : Text
  pub query : Text

-- What `getaddrinfo` comes to: the addresses of its answers, a gaierror, or another exception, such as the
-- UnicodeError of a name that is too long.
pub data Resolution : Type 0 where
  resolved_to : List Text → Resolution
  gaierror : Text → Resolution
  other_error : Text → Resolution

-- The standard library at the time of one call.
pub record Net : Type 0 where
  pub urlsplit : Text → Attempt SplitUrl
  pub getaddrinfo : Text → ℕ → Resolution
  pub ip_address : Text → Attempt Address

-- A WebhookRejected with its code, or another exception.
pub data Refusal : Type 0 where
  webhook_rejected : Text → Refusal
  raised : Text → Refusal

pub data Verdict {ℓ} (A : Type ℓ) : Type ℓ where
  accepted : A → Verdict A
  refused : Refusal → Verdict A

pub record Target : Type 0 where
  pub target_host : Text
  pub target_ip : Text
  pub target_port : ℕ
  pub target_path : Text

-- One call of the transport.
pub record Request : Type 0 where
  pub target : Target
  pub method : Text
  pub body : List ℕ
  pub headers : List (Text × Text)

pub record WebhookResult : Type 0 where
  pub ok : Bool
  pub status_code : Option ℕ
  pub detail : Text
  pub response_body : Text

-- The calls of the transport, and the reply or the exception.
pub record Sending : Type 0 where
  pub calls : List Request
  pub reply : Verdict WebhookResult

-- `parsed.port or 443`.
abbrev pub port_or_default : Option ℕ → ℕ
port_or_default none = 443
port_or_default (some zero) = 443
port_or_default (some (suc p)) = suc p

abbrev pub path_of : SplitUrl → Text
path_of u =
    let p : Text = if is_empty u.path then codes "/" else u.path in
    if is_empty u.query then p else p ++ codes "?" ++ u.query

-- The sorted list of a set of addresses.
unfoldable pub insert_ip : Text → List Text → List Text
insert_ip ip [] = ip ∷ []
insert_ip ip (x ∷ xs) =
    let rest : List Text = insert_ip ip xs in
    if text_eq ip x then x ∷ xs else if text_ltb ip x then ip ∷ x ∷ xs else x ∷ rest

unfoldable pub sorted_set : List Text → List Text
sorted_set [] = []
sorted_set (ip ∷ ips) = insert_ip ip (sorted_set ips)

abbrev pub or_blocked : Attempt Address → Option Refusal → Option Refusal
or_blocked (failed e) rest = some (raised e)
or_blocked (done a) rest =
    if is_public_ip a then rest else some (webhook_rejected (codes "ssrf_blocked"))

-- The first refusal among the addresses.
unfoldable pub ip_error : Net → List Text → Option Refusal
ip_error net [] = none
ip_error net (ip ∷ ips) = or_blocked (net.ip_address (before_percent ip)) (ip_error net ips)

abbrev pub unless_refused : Option Refusal → Target → Verdict Target
unless_refused (some r) t = refused r
unless_refused none t = accepted t

unfoldable pub with_addresses : Net → SplitUrl → Text → ℕ → List Text → Verdict Target
with_addresses net u host p [] = refused (webhook_rejected (codes "resolve_failed"))
with_addresses net u host p (ip ∷ ips) =
    unless_refused (ip_error net (ip ∷ ips))
      (record { target_host = host; target_ip = ip; target_port = p; target_path = path_of u })

unfoldable pub looked_up : Net → SplitUrl → Text → ℕ → Resolution → Verdict Target
looked_up net u host p (gaierror e) = refused (webhook_rejected (codes "resolve_failed"))
looked_up net u host p (other_error e) = refused (raised e)
looked_up net u host p (resolved_to ips) = with_addresses net u host p (sorted_set ips)

unfoldable pub with_port : Net → SplitUrl → Text → Attempt (Option ℕ) → Verdict Target
with_port net u host (failed e) = refused (webhook_rejected (codes "invalid_url"))
with_port net u host (done p) =
    looked_up net u host (port_or_default p) (net.getaddrinfo host (port_or_default p))

unfoldable pub with_host : Net → SplitUrl → Option Text → Verdict Target
with_host net u none = refused (webhook_rejected (codes "invalid_url"))
with_host net u (some host) =
    if is_empty host
    then refused (webhook_rejected (codes "invalid_url"))
    else with_port net u host u.port

unfoldable pub with_split : Net → Attempt SplitUrl → Verdict Target
with_split net (failed e) = refused (raised e)
with_split net (done u) =
    if text_eq u.scheme (codes "https")
    then with_host net u u.hostname
    else refused (webhook_rejected (codes "invalid_scheme"))

unfoldable pub validate_and_resolve : Net → Text → Verdict Target
validate_and_resolve net url = with_split net (net.urlsplit url)

-- One call of the transport for a target that passed.
unfoldable pub attempt : (Request → WebhookResult) → (Target → Request) → Verdict Target → Sending
attempt send request_to (refused r) = record { calls = []; reply = refused r }
attempt send request_to (accepted t) = record {
  calls = request_to t ∷ [];
  reply = accepted (send (request_to t));
}

-- `body` is the encoded JSON of the payload.
abbrev pub webhook_request : List ℕ → Target → Request
webhook_request body t = record {
  target = t;
  method = codes "POST";
  body = body;
  headers =
      (codes "Content-Type", codes "application/json")
      ∷ (codes "Content-Length", decimal (length body))
      ∷ (codes "User-Agent", codes "NetAudit-Alerts/1.0")
      ∷ [];
}

unfoldable pub send_webhook : Net → (Request → WebhookResult) → Text → List ℕ → Sending
send_webhook net send url body = attempt send (webhook_request body) (validate_and_resolve net url)

-- `headers.setdefault`.
unfoldable pub set_default : Text → Text → List (Text × Text) → List (Text × Text)
set_default name value [] = (name, value) ∷ []
set_default name value (h ∷ hs) =
    let rest : List (Text × Text) = set_default name value hs in
    if text_eq h.0 name then h ∷ hs else h ∷ rest

abbrev pub plain_request : Text → List (Text × Text) → Target → Request
plain_request method headers t = record {
  target = t;
  method = method;
  body = [];
  headers = set_default (codes "User-Agent") (codes "NetAudit-Alerts/1.0") headers;
}

unfoldable pub send_request :
    Net → (Request → WebhookResult) → Text → Text → List (Text × Text) → Sending
send_request net send url method headers =
    attempt send (plain_request method headers) (validate_and_resolve net url)
