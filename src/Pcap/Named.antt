-- ===== src/Pcap/Named.antt =====
-- pcap/synth.py: the names of protocols, in any case.
use mathlib.Core.Path.{ap₂}
use net_audit.Packet.{Protocol, tcp, udp, icmp, other}
use net_audit.Common.Text.{Text, text_eq, codes}
use net_audit.Pcap.Synth.{Layer4, tcp4, udp4, icmp4, other4, layer_of, lower, l4_len}
use net_audit.Common.{
  leb, ◌==◌, if◌then◌else◌, All, ℕ, ◌+◌, ◌≤◌, ◌≡◌, refl, ap, ◌∙◌, Bool, true, false, ◌&&◌, ◌||◌, [],
  ◌∷◌, arith,
}

-- The letters of a name, each small as in the name or its capital.
abbrev pub spells : Text → Text → Bool
spells [] [] = true
spells (n ∷ name) (c ∷ cs) = (c == n || c + 32 == n) && spells name cs
spells _ _ = false

-- The protocol that a stored name stands for, and the bytes its header takes.
abbrev pub protocol_named : Text → Protocol
protocol_named s =
    if spells (codes "tcp") s
    then tcp
    else if spells (codes "udp") s
    then udp
    else if spells (codes "icmp") s
    then icmp
    else other

abbrev pub header_room : Protocol → ℕ
header_room tcp = 20
header_room udp = 8
header_room icmp = 8
header_room other = 0

abbrev AreSmall : Text → Type 0
AreSmall name = All (λ n. (97 ≤ n) × (n ≤ 122)) name

lower_letter :
    (n c : ℕ)
    → 97 ≤ n
    → n ≤ 122
    → ((if leb b'A' c && leb c b'Z' then c + 32 else c) == n) ≡ (c == n || c + 32 == n)
lower_letter n c low high = ground arith

text_eq-lower : (name s : Text) → AreSmall name → text_eq (lower s) name ≡ spells name s
unfolding text_eq
text_eq-lower [] [] h = refl
text_eq-lower [] (c ∷ cs) h = refl
text_eq-lower (n ∷ name) [] h = refl
text_eq-lower (n ∷ name) (c ∷ cs) h =
    ap₂ (λ a b. a && b) (lower_letter n c h.0.0 h.0.1) (text_eq-lower name cs h.1)

abbrev pub protocol_of : Layer4 → Protocol
protocol_of tcp4 = tcp
protocol_of udp4 = udp
protocol_of icmp4 = icmp
protocol_of other4 = other

-- The choice of a protocol by three tests.
abbrev picked : Bool → Bool → Bool → Protocol
picked is_tcp is_udp is_icmp =
    if is_tcp then tcp else if is_udp then udp else if is_icmp then icmp else other

picked_layer :
    (a b c : Bool)
    → protocol_of (if a then tcp4 else if b then udp4 else if c then icmp4 else other4)
      ≡ picked a b c
picked_layer true b c = refl
picked_layer false true c = refl
picked_layer false false true = refl
picked_layer false false false = refl

pub protocol_of-layer_of : (s : Text) → protocol_of (layer_of (lower s)) ≡ protocol_named s
protocol_of-layer_of s =
    let t = text_eq-lower (codes "tcp") s (
      (omega arith, omega arith),
      ((omega arith, omega arith), ((omega arith, omega arith), tt)),
    ) in
    let u = text_eq-lower (codes "udp") s (
      (omega arith, omega arith),
      ((omega arith, omega arith), ((omega arith, omega arith), tt)),
    ) in
    let i = text_eq-lower (codes "icmp") s (
      (omega arith, omega arith),
      ((omega arith, omega arith), ((omega arith, omega arith), ((omega arith, omega arith), tt))),
    ) in
    picked_layer (text_eq (lower s) (codes "tcp")) (text_eq (lower s) (codes "udp"))
      (text_eq (lower s) (codes "icmp"))
    ∙ ap (λ b. picked b (text_eq (lower s) (codes "udp")) (text_eq (lower s) (codes "icmp"))) t
    ∙ ap₂ (λ b c. picked (spells (codes "tcp") s) b c) u i

pub l4_len-header_room : (l : Layer4) → l4_len l ≡ header_room (protocol_of l)
l4_len-header_room tcp4 = refl
l4_len-header_room udp4 = refl
l4_len-header_room icmp4 = refl
l4_len-header_room other4 = refl
