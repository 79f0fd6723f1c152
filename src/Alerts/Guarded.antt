-- ===== src/Alerts/Guarded.antt =====
-- alerts/webhook.py: what a call of the transport goes to.
use net_audit.Alerts.Webhook.{resolved_to, gaierror, other_error, Resolution}
use net_audit.Alerts.Addresses.{IsAmong-sorted_set, All-sorted_set, insert_ip-first, sorted_set-All}
use net_audit.Alerts.Addresses.{IsAmong}
use mathlib.Core.Path.{subst}
use net_audit.Alerts.Enrichment.Responses.{Address, before_percent, is_public_ip, is_empty}
use net_audit.Alerts.Webhook.{
  sorted_set, SplitUrl, Verdict, refused, Refusal, accepted, or_blocked, path_of, with_addresses,
  looked_up, with_port, with_host, with_split, Request, attempt, validate_and_resolve, send_webhook,
  port_or_default, WebhookResult, send_request, Sending, webhook_request, plain_request,
  webhook_rejected,
}
use net_audit.Alerts.Webhook.{ip_error}
use net_audit.Common.Attempt.{Attempt, done, failed}
use net_audit.Alerts.Webhook.{Target}
use net_audit.Alerts.Webhook.{Net}
use net_audit.Common.Text.{Text, text_eq, codes, text_eq→≡, text_eq_refl}
use net_audit.Common.{
  Bool-cases, some-cases, All, ℕ, ◌≡◌, refl, sym, ◌⊎◌, inl, inr, true, Option, none, some, List, [],
  ◌∷◌, arith, ap, false, ◌∙◌, if◌then◌else◌,
}

-- The address reads as a public one.
abbrev pub IsPublic : Net → Text → Type 0
IsPublic net ip =
    (a : Address) × (net.ip_address (before_percent ip) ≡ done a) × (is_public_ip a ≡ true)

-- The target is the URL's own: https, its host and its path, and one of the addresses that its host has at
-- the time of the call, all of which are public.
abbrev pub IsReached : Net → Text → Target → Type 0
IsReached net url t =
    (u : SplitUrl) × (ips : List Text) × (net.urlsplit url ≡ done u)
    × (u.scheme ≡ codes "https")
    × (u.hostname ≡ some t.target_host)
    × (t.target_path ≡ path_of u)
    × (net.getaddrinfo t.target_host t.target_port ≡ resolved_to ips)
    × IsAmong t.target_ip ips
    × All (IsPublic net) ips

abbrev pub FitsVerdict : (Target → Type 0) → Verdict Target → Type 0
FitsVerdict P (refused r) = Unit
FitsVerdict P (accepted t) = P t

or_blocked-none :
    (a : Attempt Address) (rest : Option Refusal)
    → or_blocked a rest ≡ none
    → ((x : Address) × (a ≡ done x) × (is_public_ip x ≡ true)) × (rest ≡ none)
or_blocked-none (failed e) rest h = cc
or_blocked-none (done a) rest h = elim (Bool-cases (is_public_ip a)) [
  | inl passed ↦ ((a, refl, passed), ground arith)
  | inr closed ↦ ground arith
]

ip_error-IsPublic : (net : Net) (ips : List Text) → ip_error net ips ≡ none → All (IsPublic net) ips
unfolding ip_error
ip_error-IsPublic net [] h = tt
ip_error-IsPublic net (x ∷ xs) h =
    let (passed, rest) = or_blocked-none (net.ip_address (before_percent x)) (ip_error net xs) h in
    (passed, ip_error-IsPublic net xs rest)

module _ (net : Net) (url : Text) (u : SplitUrl) (host : Text) where
  with_addresses-IsReached :
      (p : ℕ) (ips found : List Text)
      → net.urlsplit url ≡ done u
      → u.scheme ≡ codes "https"
      → u.hostname ≡ some host
      → net.getaddrinfo host p ≡ resolved_to ips
      → sorted_set ips ≡ found
      → FitsVerdict (IsReached net url) (with_addresses net u host p found)
  unfolding with_addresses
  with_addresses-IsReached p ips [] split scheme named answered sorted = tt
  with_addresses-IsReached p ips (ip ∷ rest) split scheme named answered sorted =
      elim (some-cases (ip_error net (ip ∷ rest))) [
        | inl none_refused ↦ rw (none_refused) (
          u,
          ips,
          split,
          scheme,
          named,
          refl,
          answered,
          IsAmong-sorted_set ip ips (subst (IsAmong ip) (sym sorted) (inl refl)),
          All-sorted_set (IsPublic net) ips (
              subst (All (IsPublic net)) (sym sorted)
                (ip_error-IsPublic net (ip ∷ rest) none_refused)),
        )
        | inr (r, refusal) ↦ rw (refusal) tt
      ]

  looked_up-IsReached :
      (p : ℕ) (answer : Resolution)
      → net.urlsplit url ≡ done u
      → u.scheme ≡ codes "https"
      → u.hostname ≡ some host
      → net.getaddrinfo host p ≡ answer
      → FitsVerdict (IsReached net url) (looked_up net u host p answer)
  unfolding looked_up
  looked_up-IsReached p (gaierror e) split scheme named answered = tt
  looked_up-IsReached p (other_error e) split scheme named answered = tt
  looked_up-IsReached p (resolved_to ips) split scheme named answered =
      with_addresses-IsReached p ips (sorted_set ips) split scheme named answered refl

  with_port-IsReached :
      (port : Attempt (Option ℕ))
      → net.urlsplit url ≡ done u
      → u.scheme ≡ codes "https"
      → u.hostname ≡ some host
      → FitsVerdict (IsReached net url) (with_port net u host port)
  unfolding with_port
  with_port-IsReached (failed e) split scheme named = tt
  with_port-IsReached (done p) split scheme named =
      looked_up-IsReached (port_or_default p) (net.getaddrinfo host (port_or_default p)) split
        scheme named refl

with_host-IsReached :
    (net : Net) (url : Text) (u : SplitUrl) (host : Option Text)
    → net.urlsplit url ≡ done u
    → u.scheme ≡ codes "https"
    → u.hostname ≡ host
    → FitsVerdict (IsReached net url) (with_host net u host)
unfolding with_host
with_host-IsReached net url u none split scheme named = tt
with_host-IsReached net url u (some []) split scheme named = tt
with_host-IsReached net url u (some (c ∷ cs)) split scheme named =
    with_port-IsReached net url u (c ∷ cs) u.port split scheme named

with_split-IsReached :
    (net : Net) (url : Text) (parsed : Attempt SplitUrl)
    → net.urlsplit url ≡ parsed
    → FitsVerdict (IsReached net url) (with_split net parsed)
unfolding with_split
with_split-IsReached net url (failed e) split = tt
with_split-IsReached net url (done u) split = elim (Bool-cases (text_eq u.scheme (codes "https"))) [
  | inl secure ↦ rw (secure) (
      with_host-IsReached net url u u.hostname split (text_eq→≡ u.scheme (codes "https") secure)
        refl)
  | inr other ↦ rw (other) tt
]

-- The URL reads, is https, and has a host and a port, and the host has addresses, all of them public.
abbrev pub IsAllowed : Net → Text → Type 0
IsAllowed net url =
    (u : SplitUrl) × (host : Text) × (p : Option ℕ) × (ip : Text) × (ips : List Text)
    × (net.urlsplit url ≡ done u)
    × (u.scheme ≡ codes "https")
    × (u.hostname ≡ some host)
    × (is_empty host ≡ false)
    × (u.port ≡ done p)
    × (net.getaddrinfo host (port_or_default p) ≡ resolved_to (ip ∷ ips))
    × All (IsPublic net) (ip ∷ ips)

abbrev IsAccepted : Verdict Target → Type 0
IsAccepted v = (t : Target) × (v ≡ accepted t)

or_blocked-open :
    (a : Address) (rest : Option Refusal) → is_public_ip a ≡ true → or_blocked (done a) rest ≡ rest
or_blocked-open a rest h = rw (h) refl

IsPublic-ip_error : (net : Net) (ips : List Text) → All (IsPublic net) ips → ip_error net ips ≡ none
unfolding ip_error
IsPublic-ip_error net [] h = refl
IsPublic-ip_error net (ip ∷ ips) ((a, reads, is_open), hs) =
    ap (λ x. or_blocked x (ip_error net ips)) reads
    ∙ or_blocked-open a (ip_error net ips) is_open
    ∙ IsPublic-ip_error net ips hs

with_addresses-IsAccepted :
    (net : Net) (u : SplitUrl) (host : Text) (p : ℕ) (ip : Text) (ips : List Text)
    → All (IsPublic net) (ip ∷ ips)
    → IsAccepted (with_addresses net u host p (ip ∷ ips))
unfolding with_addresses
with_addresses-IsAccepted net u host p ip ips h =
    let e : ip_error net (ip ∷ ips) ≡ none = IsPublic-ip_error net (ip ∷ ips) h in
    (
      record { target_host = host; target_ip = ip; target_port = p; target_path = path_of u },
      rw (e) refl,
    )

looked_up-IsAccepted :
    (net : Net) (u : SplitUrl) (host : Text) (p : ℕ) (ip : Text) (ips : List Text)
    → All (IsPublic net) (ip ∷ ips)
    → IsAccepted (looked_up net u host p (resolved_to (ip ∷ ips)))
unfolding looked_up sorted_set
looked_up-IsAccepted net u host p ip ips h =
    let (y, (ys, e)) = insert_ip-first ip (sorted_set ips) in
    subst (λ l. IsAccepted (with_addresses net u host p l)) (sym e)
      (with_addresses-IsAccepted net u host p y ys
        (subst (All (IsPublic net)) e (sorted_set-All (IsPublic net) (ip ∷ ips) h)))

-- A text that is not empty makes no difference to the check of the host.
with_host-full :
    (net : Net) (u : SplitUrl) (host : Text)
    → is_empty host ≡ false
    → with_host net u (some host) ≡ with_port net u host u.port
unfolding with_host
with_host-full net u [] h = ground arith
with_host-full net u (c ∷ cs) h = refl

with_split-https :
    (net : Net) (u : SplitUrl)
    → u.scheme ≡ codes "https"
    → with_split net (done u) ≡ with_host net u u.hostname
unfolding with_split
with_split-https net u secure =
    ap
      (λ b.
        if b
        then with_host net u u.hostname
        else refused (webhook_rejected (codes "invalid_scheme")))
      (ap (λ x. text_eq x (codes "https")) secure ∙ text_eq_refl (codes "https"))

validate_and_resolve-IsAccepted :
    (net : Net) (url : Text) → IsAllowed net url → IsAccepted (validate_and_resolve net url)
unfolding validate_and_resolve with_split with_port
validate_and_resolve-IsAccepted net url
      (u, host, p, ip, ips, split, secure, named, full, at, found, h) =
    let e1 : validate_and_resolve net url ≡ with_host net u u.hostname =
      ap (with_split net) split ∙ with_split-https net u secure in
    let e2 : with_host net u u.hostname ≡ with_port net u host u.port =
      ap (with_host net u) named ∙ with_host-full net u host full in
    let e3 : with_port net u host u.port
        ≡ looked_up net u host (port_or_default p) (resolved_to (ip ∷ ips)) =
      ap (with_port net u host) at ∙ ap (looked_up net u host (port_or_default p)) found in
    subst IsAccepted (sym (e1 ∙ e2 ∙ e3))
      (looked_up-IsAccepted net u host (port_or_default p) ip ips h)

-- A refusal calls nothing, and is of a URL that is not allowed; otherwise there is the one call, and its
-- result is the reply.
abbrev pub IsGuarded :
    Net → (Request → WebhookResult) → (Target → Request) → Text → Sending → Type 0
IsGuarded net send request_to url s =
    ((r : Refusal) × (s.calls ≡ []) × (s.reply ≡ refused r) × (¬ IsAllowed net url))
    ⊎ ((t : Target) × (s.calls ≡ request_to t ∷ [])
        × (s.reply ≡ accepted (send (request_to t)))
        × IsReached net url t)

attempt-IsGuarded :
    (net : Net) (send : Request → WebhookResult) (request_to : Target → Request) (url : Text)
    (v : Verdict Target)
    → validate_and_resolve net url ≡ v
    → FitsVerdict (IsReached net url) v
    → IsGuarded net send request_to url (attempt send request_to v)
unfolding attempt
attempt-IsGuarded net send request_to url (refused r) e h = inl (r, refl, refl, not_allowed)
  where
    not_allowed : ¬ IsAllowed net url
    not_allowed a =
        let (t, e') = validate_and_resolve-IsAccepted net url a in
        let e3 : refused r ≡ accepted t = sym e ∙ e' in cc
attempt-IsGuarded net send request_to url (accepted t) e h = inr (t, refl, refl, h)

validate_and_resolve-IsReached :
    (net : Net) (url : Text) → FitsVerdict (IsReached net url) (validate_and_resolve net url)
unfolding validate_and_resolve
validate_and_resolve-IsReached net url = with_split-IsReached net url (net.urlsplit url) refl

-- Whatever the URL, and whatever the name's addresses are at the time: send_webhook and send_request make
-- at most one call of the transport. Either they end with an exception and call nothing, and then the URL
-- does not read, is not https, lacks a host or a valid port, or its host has no address or one that is not
-- public; or they make one call, whose result they return: the URL is https, the call is for the URL's
-- host and path, it goes to an address that the host has now, and all that it has now are public.
pub send-IsGuarded :
    (net : Net) (send : Request → WebhookResult) (url method : Text) (body : List ℕ)
    (headers : List (Text × Text))
    → IsGuarded net send (webhook_request body) url (send_webhook net send url body)
      × IsGuarded net send
          (plain_request method headers)
          url
          (send_request net send url method headers)
unfolding send_webhook send_request
send-IsGuarded net send url method body headers = (
  attempt-IsGuarded net send (webhook_request body) url (validate_and_resolve net url) refl
      (validate_and_resolve-IsReached net url),
  attempt-IsGuarded net send (plain_request method headers) url (validate_and_resolve net url) refl
      (validate_and_resolve-IsReached net url),
)
