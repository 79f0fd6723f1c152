-- ===== src/Pcap/Bpf/Positions.antt =====
-- Tokens and errors lie inside the text, and what a valid tree is.
use net_audit.Common.Text.{Text}
use net_audit.Pcap.Bpf.{
  tokenize, Node, put_char, put_class, bool_op, mark, class_of, negation, space, starts_word, proto,
  in_word, port_expr, host_expr, net_expr,
}
use net_audit.Pcap.Bpf.{tokenize_from}
use net_audit.Pcap.Bpf.{CharClass}
use net_audit.Pcap.Bpf.Parser.{Failure, parse_error, Parsed, end_from, err, ok}
use net_audit.Pcap.Bpf.{Lib}
use net_audit.Pcap.Bpf.{Token}
use net_audit.Common.{length, All, ℕ, ◌+◌, ◌≤◌, ◌≡◌, Bool, true, false, some, List, [], ◌∷◌, arith}

-- The tokens lie between two offsets.
abbrev pub Inside : ℕ → ℕ → List Token → Type 0
Inside lo hi ts = All (λ t. (lo ≤ t.pos) × (t.pos + length t.value ≤ hi)) ts

abbrev pub IsValid : Lib → Node → Type 0
IsValid lib (bool_op op left right) = IsValid lib left × IsValid lib right
IsValid lib (negation node) = IsValid lib node
IsValid lib (proto name) = Unit
IsValid lib (port_expr q port) = port ≤ 65535
IsValid lib (host_expr q host) = lib.is_address host ≡ true
IsValid lib (net_expr q network) = (candidate : Text) × (lib.network candidate ≡ some network)

-- An error of the parser's own points inside.
abbrev pub PointsInside : ℕ → Failure → Type 0
PointsInside len (parse_error p) = p ≤ len
PointsInside len _ = Unit

abbrev pub Sound : Lib → ℕ → Parsed → Type 0
Sound lib len (err e) = PointsInside len e
Sound lib len (ok (node, ts)) = IsValid lib node × Inside 0 len ts

pub wider : (lo lo' hi : ℕ) (ts : List Token) → lo' ≤ lo → Inside lo hi ts → Inside lo' hi ts
wider lo lo' hi [] less h = tt
wider lo lo' hi (t ∷ ts) less h = ((omega arith, omega arith), wider lo lo' hi ts less h.1)

put_char-Inside :
    (c pos hi : ℕ) (joined : Bool) (ts : List Token)
    → pos + 1 ≤ hi
    → Inside (pos + 1) hi ts
    → Inside pos hi (put_char c pos joined ts)
put_char-Inside c pos hi true [] room h = ((omega arith, omega arith), tt)
put_char-Inside c pos hi true (t ∷ ts) room h =
    ((omega arith, omega arith), wider (pos + 1) pos hi ts (omega arith) h.1)
put_char-Inside c pos hi false ts room h =
    ((omega arith, omega arith), wider (pos + 1) pos hi ts (omega arith) h)

put_class-Inside :
    (k : CharClass) (c pos hi : ℕ) (joined : Bool) (ts : List Token)
    → pos + 1 ≤ hi
    → Inside (pos + 1) hi ts
    → Inside pos hi (put_class k c pos joined ts)
put_class-Inside (mark k) c pos hi joined ts room h =
    ((omega arith, omega arith), wider (pos + 1) pos hi ts (omega arith) h)
put_class-Inside space c pos hi joined ts room h = wider (pos + 1) pos hi ts (omega arith) h
put_class-Inside in_word c pos hi joined ts room h = put_char-Inside c pos hi joined ts room h

tokenize_from-Inside :
    (s : Text) (pos hi : ℕ) → hi ≡ pos + length s → Inside pos hi (tokenize_from pos s)
unfolding tokenize_from
tokenize_from-Inside [] pos hi e = tt
tokenize_from-Inside (c ∷ s) pos hi e =
    put_class-Inside (class_of c) c pos hi (starts_word s) (tokenize_from (pos + 1) s) (omega arith)
      (tokenize_from-Inside s (pos + 1) hi (omega arith))

pub tokenize-Inside : (s : Text) → Inside 0 (length s) (tokenize s)
unfolding tokenize
tokenize-Inside s = tokenize_from-Inside s 0 (length s) (omega arith)

pub end_from-le :
    (len eof : ℕ) (ts : List Token) → eof ≤ len → Inside 0 len ts → end_from eof ts ≤ len
end_from-le len eof [] h k = h
end_from-le len eof (t ∷ ts) h k = end_from-le len (t.pos + length t.value) ts (omega arith) k.1
