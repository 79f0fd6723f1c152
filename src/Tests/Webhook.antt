-- ===== src/Tests/Webhook.antt =====
-- A webhook whose name has a public address at one time, and a private one as well at another.
use net_audit.Alerts.Webhook.{accepted, refused, resolved_to}
use net_audit.Common.Attempt.{done}
use net_audit.Alerts.Guarded.{IsGuarded, send-IsGuarded}
use net_audit.Alerts.Webhook.{
  validate_and_resolve, Net, WebhookResult, with_split, with_host, webhook_request, with_port,
  send_webhook, looked_up, plain_request, send_request, sorted_set, insert_ip, ip_error,
  webhook_rejected, with_addresses,
}
use net_audit.Alerts.Webhook.{Request}
use net_audit.Common.Text.{Text, codes, text_eq, text_ltb}
use net_audit.Alerts.Webhook.{SplitUrl}
use net_audit.Alerts.Enrichment.Responses.{Address, before_percent}
use net_audit.Common.{◌≡◌, refl, Bool, true, false, none, some, List, [], ◌∷◌}

abbrev address_like : Bool → Address
address_like is_private = record {
  is_private = is_private;
  is_loopback = false;
  is_link_local = false;
  is_reserved = false;
  is_multicast = false;
  is_unspecified = false;
  is_site_local = false;
  in_shared_space = false;
}

abbrev hook : SplitUrl
hook = record {
  scheme = codes "https";
  hostname = some (codes "hooks.example");
  port = done none;
  path = [];
  query = codes "a=1";
}

-- The addresses that the name has.
abbrev net_with : List Text → Net
net_with ips = record {
  urlsplit = λ url. done hook;
  getaddrinfo = λ host port. resolved_to ips;
  ip_address = λ ip. done (address_like (text_eq ip (codes "10.0.0.1")));
}

abbrev replied : Request → WebhookResult
replied r = record {
  ok = true;
  status_code = some 200;
  detail = codes "HTTP 200";
  response_body = [];
}

-- The smallest address is the one that is called, of two that are given in another order and twice.
public_addresses :
    validate_and_resolve
      (net_with (codes "9.9.9.9" ∷ codes "8.8.8.8" ∷ codes "9.9.9.9" ∷ []))
      (codes "u")
    ≡ accepted (record {
      target_host = codes "hooks.example";
      target_ip = codes "8.8.8.8";
      target_port = 443;
      target_path = codes "/?a=1";
    })
unfolding validate_and_resolve with_split with_host with_port looked_up with_addresses sorted_set
    insert_ip ip_error before_percent text_eq text_ltb
public_addresses = refl

-- One private address among public ones is enough for a refusal, with a zone or without.
rebound_name :
    validate_and_resolve (net_with (codes "8.8.8.8" ∷ codes "10.0.0.1%eth0" ∷ [])) (codes "u")
    ≡ refused (webhook_rejected (codes "ssrf_blocked"))
unfolding validate_and_resolve with_split with_host with_port looked_up with_addresses sorted_set
    insert_ip ip_error before_percent text_eq text_ltb
rebound_name = refl

send-IsGuarded_example :
    IsGuarded
      (net_with (codes "8.8.8.8" ∷ []))
      replied
      (webhook_request (1 ∷ 2 ∷ []))
      (codes "u")
      (send_webhook (net_with (codes "8.8.8.8" ∷ [])) replied (codes "u") (1 ∷ 2 ∷ []))
    × IsGuarded
        (net_with (codes "8.8.8.8" ∷ []))
        replied
        (plain_request (codes "GET") [])
        (codes "u")
        (send_request (net_with (codes "8.8.8.8" ∷ [])) replied (codes "u") (codes "GET") [])
send-IsGuarded_example =
    send-IsGuarded (net_with (codes "8.8.8.8" ∷ [])) replied (codes "u") (codes "GET") (1 ∷ 2 ∷ [])
      []
