-- ===== src/Pcap/Bpf/Evaluate.antt =====
-- pcap/bpf.py: evaluation of a filter on a packet, and its description.
use net_audit.Common.{ℕ, Bool, false, not, ◌&&◌, ◌||◌, Option, none, some, [], ◌∷◌, ◌++◌, ◌==◌}
use net_audit.Common.Text.{Text, codes, text_eq, decimal}
use net_audit.Pcap.Bpf.{
  Proto, Qualifier, BoolOp, Node, bool_op, negation, proto, port_expr, host_expr, net_expr, Lib,
}
use net_audit.Pcap.Bpf.Parser.{lower}

-- The entries of the packet that the evaluator reads; a missing entry and a `None` are `none`.
pub record Packet : Type 0 where
  pub protocol : Option Text
  pub src_addr : Option Text
  pub src_port : Option ℕ
  pub dst_addr : Option Text
  pub dst_port : Option ℕ

abbrev pub proto_name : Proto → Text
proto_name Proto.tcp = codes "tcp"
proto_name Proto.udp = codes "udp"
proto_name Proto.icmp = codes "icmp"

abbrev pub or_empty : Option Text → Text
or_empty none = []
or_empty (some t) = t

abbrev pub is_port : Option ℕ → ℕ → Bool
is_port none port = false
is_port (some p) port = p == port

abbrev pub is_host : Option Text → Text → Bool
is_host none host = false
is_host (some a) host = text_eq a host

-- `_in_net`: no address, and the empty one, lie in no network.
abbrev pub in_net : Lib → Text → Option Text → Bool
in_net lib network none = false
in_net lib network (some []) = false
in_net lib network (some (c ∷ a)) = lib.in_network network (c ∷ a)

abbrev pub by_qualifier : Qualifier → Bool → Bool → Bool
by_qualifier Qualifier.src at_src at_dst = at_src
by_qualifier Qualifier.dst at_src at_dst = at_dst
by_qualifier Qualifier.either at_src at_dst = at_src || at_dst

unfoldable pub evaluate : Lib → Node → Packet → Bool
evaluate lib (bool_op BoolOp.and left right) p = evaluate lib left p && evaluate lib right p
evaluate lib (bool_op BoolOp.or left right) p = evaluate lib left p || evaluate lib right p
evaluate lib (negation node) p = not (evaluate lib node p)
evaluate lib (proto name) p = text_eq (lower (or_empty p.protocol)) (proto_name name)
evaluate lib (port_expr q port) p =
    by_qualifier q (is_port p.src_port port) (is_port p.dst_port port)
evaluate lib (host_expr q host) p =
    by_qualifier q (is_host p.src_addr host) (is_host p.dst_addr host)
evaluate lib (net_expr q network) p =
    by_qualifier q (in_net lib network p.src_addr) (in_net lib network p.dst_addr)

abbrev pub op_name : BoolOp → Text
op_name BoolOp.and = codes " AND "
op_name BoolOp.or = codes " OR "

abbrev pub upper_name : Proto → Text
upper_name Proto.tcp = codes "TCP"
upper_name Proto.udp = codes "UDP"
upper_name Proto.icmp = codes "ICMP"

abbrev pub qualifier_name : Text → Qualifier → Text
qualifier_name missing Qualifier.src = codes "src"
qualifier_name missing Qualifier.dst = codes "dst"
qualifier_name missing Qualifier.either = missing

unfoldable pub describe : Node → Text
unfolding decimal
describe (bool_op op left right) =
    codes "(" ++ (describe left ++ (op_name op ++ (describe right ++ codes ")")))
describe (negation node) = codes "NOT " ++ describe node
describe (proto name) = upper_name name
describe (port_expr q port) = qualifier_name (codes "dst/src") q ++ (codes " port " ++ decimal port)
describe (host_expr q host) = qualifier_name (codes "src/dst") q ++ (codes " host " ++ host)
describe (net_expr q network) = qualifier_name (codes "src/dst") q ++ (codes " net " ++ network)
