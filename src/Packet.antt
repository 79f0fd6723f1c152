-- ===== src/Packet.antt =====
-- Packets as bytes: capture/parse.py (raw-socket packets) and pcap/dissect.py (captured frames).
-- `none` is the exception that `struct.unpack` or an index out of range raises.
pub mod Parse
pub mod Dissect
pub mod Totality
pub mod Frames
pub mod Agreement
use net_audit.Common.{
  ℕ, ◌+◌, ◌*◌, ◌/◌, ◌%◌, Bool, Option, none, some, List, [], ◌∷◌, get_elem?, take, drop, slice,
  ◌==◌, if◌then◌else◌, map,
}
use net_audit.Common.Text.{Text, codes, decimal, join}
use net_audit.Struct.{big, unpack}

pub data Protocol : Type 0 where
  tcp udp icmp other : Protocol

-- ".".join(str(b) for b in raw)
unfoldable pub format_ipv4 : List ℕ → Text
unfolding decimal join
format_ipv4 raw = join (codes ".") (map decimal raw)

abbrev pub TcpFlag : Type 0
TcpFlag = ℕ × Text

-- The names whose bit is set; a mask is a power of two.
unfoldable pub flag_names : List TcpFlag → ℕ → List Text
flag_names [] bits = []
flag_names ((mask, name) ∷ flags) bits =
    if (bits / mask) % 2 == 1 then name ∷ flag_names flags bits else flag_names flags bits

infixl 5 ◌>>=◌
abbrev pub ◌>>=◌ {ℓ κ} : {A : Type ℓ} {B : Type κ} → Option A → (A → Option B) → Option B
none >>= f = none
some a >>= f = f a

-- The one value of struct.unpack("!H", raw)[0], and the two of struct.unpack("!HH", raw).
abbrev pub single : List ℕ → Option ℕ
single (v ∷ []) = some v
single _ = none

abbrev pub pair : List ℕ → Option (ℕ × ℕ)
pair (a ∷ b ∷ []) = some (a, b)
pair _ = none

unfoldable pub unpack_u16 : List ℕ → Option ℕ
unpack_u16 raw = do vs ← unpack big (2 ∷ []) raw; single vs

unfoldable pub unpack_ports : List ℕ → Option (ℕ × ℕ)
unpack_ports raw = do vs ← unpack big (2 ∷ 2 ∷ []) raw; pair vs
