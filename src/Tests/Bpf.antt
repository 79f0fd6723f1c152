-- ===== src/Tests/Bpf.antt =====
-- Runs of pcap/bpf.py, and its theorems at a concrete filter.
use net_audit.Pcap.Bpf.Enough.{parse_bpf_ends}
use net_audit.Pcap.Bpf.Parser.{parse_bpf, err, parse_atom, parse_compared, parse_port}
use net_audit.Pcap.Bpf.Checked.{IsChecked, parse_bpf-IsChecked}
use net_audit.Common.Text.{Text, codes}
use net_audit.Pcap.Bpf.{Lib, bool_op, BoolOp, Node, Proto, port_expr, Qualifier, negation}
use net_audit.Pcap.Bpf.Parser.{ok, out_of_fuel}
use net_audit.Common.{
  leb, length, all, ◌-◌, ◌≡◌, refl, ap, ◌≢◌, Bool, false, not, ◌&&◌, none, some, arith,
}

-- A library in which each text of digits is the number 443, and no text is an address or a network.
abbrev plain : Lib
plain = record {
  is_digits = λ t. all (λ c. leb b'0' c && leb c b'9') t;
  to_int = λ t. some 443;
  is_address = λ t. false;
  network = λ t. none;
  in_network = λ n a. false;
}

-- No `and` is written between the terms.
abbrev https : Text
https = codes "tcp port 443 or not (udp)"

parse_bpf-IsChecked_example : IsChecked plain (length https) (parse_bpf plain https)
parse_bpf-IsChecked_example = parse_bpf-IsChecked plain https

parse_bpf_ends_example : parse_bpf plain https ≢ err out_of_fuel
parse_bpf_ends_example = parse_bpf_ends plain https

parse_bpf-https :
    parse_bpf plain https
    ≡ ok (
        bool_op BoolOp.or
          (bool_op BoolOp.and (Node.proto Proto.tcp) (port_expr Qualifier.either 443))
          (negation (Node.proto Proto.udp)))
unfolding parse_bpf parse_atom parse_compared parse_port net_audit.Pcap.Bpf.is_space
    net_audit.Pcap.Bpf.tokenize net_audit.Pcap.Bpf.Parser.is_keyword net_audit.Common.Text.text_eq
    net_audit.Pcap.Bpf.Parser.starts_primary
parse_bpf-https = refl
