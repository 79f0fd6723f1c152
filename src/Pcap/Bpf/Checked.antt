-- ===== src/Pcap/Bpf/Checked.antt =====
-- What the parser checks: the descent keeps trees valid, and its errors point into the expression.
use net_audit.Pcap.Bpf.Enough.{look-cases, look_paren-cases}
use net_audit.Pcap.Bpf.Positions.{Inside, PointsInside, tokenize-Inside, end_from-le}
use net_audit.Pcap.Bpf.Positions.{IsValid}
use net_audit.Pcap.Bpf.Positions.{Sound}
use net_audit.Common.Text.{Text, codes}
use net_audit.Pcap.Bpf.Parser.{
  parse_bpf, Parsed, parse_port, parse_host, parse_net, parse_compared, parse_qualified, parse_atom,
  or_expr, Result, ok, then_parse, close, port_of, net_of, parse_prefix, parse_slash, and_expr, err,
  finish, parse_tokens, or_loop, end_from, unary, and_loop, primary,
}
use net_audit.Pcap.Bpf.{Lib, Node, Qualifier, Token, is_space, tokenize, bool_op, BoolOp, negation}
use net_audit.Common.{
  Bool-cases, some-cases, length, all, ℕ, zero, suc, ◌+◌, ◌*◌, ◌≤◌, inl, inr, Option, none, some,
  List, [], ◌∷◌, ◌++◌, arith,
}

module _ (lib : Lib) (len eof : ℕ) (end : eof ≤ len) where
  then_parse-Sound :
      (m : Parsed) (next : Node → List Token → Parsed)
      → Sound lib len m
      → ((node : Node) (rest : List Token)
          → IsValid lib node
          → Inside 0 len rest
          → Sound lib len (next node rest))
      → Sound lib len (then_parse m next)
  then_parse-Sound (err e) next h step = h
  then_parse-Sound (ok (node, rest)) next h step = step node rest h.0 h.1

  close-Sound :
      (node : Node) (ts : List Token)
      → IsValid lib node
      → Inside 0 len ts
      → Sound lib len (close eof node ts)
  close-Sound node [] v h = end
  close-Sound node (t ∷ ts) v h = ground (arith, h.0, h.1)

  port_of-Sound :
      (q : Qualifier) (pos : ℕ) (ts : List Token) (n : Option ℕ)
      → pos ≤ len
      → Inside 0 len ts
      → Sound lib len (port_of lib q pos ts n)
  port_of-Sound q pos ts none p h = tt
  port_of-Sound q pos ts (some n) p h = ground arith

  parse_port-Sound :
      (q : Qualifier) (ts : List Token) → Inside 0 len ts → Sound lib len (parse_port lib eof q ts)
  unfolding parse_port
  parse_port-Sound q [] h = end
  parse_port-Sound q (t ∷ ts) h =
      ground (arith, port_of-Sound q t.pos ts (lib.to_int t.value) (omega arith) h.1)

  parse_host-Sound :
      (q : Qualifier) (ts : List Token) → Inside 0 len ts → Sound lib len (parse_host lib eof q ts)
  unfolding parse_host
  parse_host-Sound q [] h = end
  parse_host-Sound q (t ∷ ts) h = ground (arith, h.1)

  net_of-Sound :
      (q : Qualifier) (pos : ℕ) (ts : List Token) (candidate : Text)
      → pos ≤ len
      → Inside 0 len ts
      → Sound lib len (net_of lib q pos ts (lib.network candidate))
  net_of-Sound q pos ts candidate p h = elim (some-cases (lib.network candidate)) [
    | inl e ↦ rw e p
    | inr (network, e) ↦ rw e ((candidate, e), h)
  ]

  parse_prefix-Sound :
      (q : Qualifier) (a : Token) (ts : List Token)
      → a.pos ≤ len
      → Inside 0 len ts
      → Sound lib len (parse_prefix lib eof q a ts)
  parse_prefix-Sound q a [] p h = end
  parse_prefix-Sound q a (t ∷ ts) p h =
      ground (arith, net_of-Sound q a.pos ts (a.value ++ (codes "/" ++ t.value)) p h.1)

  parse_slash-Sound :
      (q : Qualifier) (a : Token) (ts : List Token)
      → a.pos ≤ len
      → Inside 0 len ts
      → Sound lib len (parse_slash lib eof q a ts)
  parse_slash-Sound q a [] p h = end
  parse_slash-Sound q a (t ∷ ts) p h = ground (arith, parse_prefix-Sound q a ts p h.1)

  parse_net-Sound :
      (q : Qualifier) (ts : List Token) → Inside 0 len ts → Sound lib len (parse_net lib eof q ts)
  unfolding parse_net
  parse_net-Sound q [] h = end
  parse_net-Sound q (t ∷ ts) h = ground (arith, parse_slash-Sound q t ts (omega arith) h.1)

  parse_compared-Sound :
      (q : Qualifier) (t : Token) (ts : List Token)
      → t.pos ≤ len
      → Inside 0 len ts
      → Sound lib len (parse_compared lib eof q t ts)
  unfolding parse_compared
  parse_compared-Sound q t ts p h =
      ground (arith, parse_port-Sound q ts h, parse_host-Sound q ts h, parse_net-Sound q ts h)

  parse_qualified-Sound :
      (q : Qualifier) (ts : List Token)
      → Inside 0 len ts
      → Sound lib len (parse_qualified lib eof q ts)
  unfolding parse_qualified
  parse_qualified-Sound q [] h = end
  parse_qualified-Sound q (t ∷ ts) h = ground (arith, parse_compared-Sound q t ts (omega arith) h.1)

  parse_atom-Sound :
      (t : Token) (ts : List Token)
      → t.pos ≤ len
      → Inside 0 len ts
      → Sound lib len (parse_atom lib eof t ts)
  unfolding parse_atom
  parse_atom-Sound t ts p h = ground (
    arith,
    parse_compared-Sound Qualifier.either t ts p h,
    parse_qualified-Sound Qualifier.src ts h,
    parse_qualified-Sound Qualifier.dst ts h,
  )

  mutual
    unfolding or_expr

    or_expr-Sound :
        (fuel : ℕ) (ts : List Token) → Inside 0 len ts → Sound lib len (or_expr lib eof fuel ts)
    or_expr-Sound zero ts h = tt
    or_expr-Sound (suc fuel) ts h =
        then_parse-Sound (and_expr lib eof fuel ts) (λ node rest. or_loop lib eof fuel node rest)
          (and_expr-Sound fuel ts h) (λ node rest v k. or_loop-Sound fuel node rest v k)

    or_loop-Sound :
        (fuel : ℕ) (node : Node) (ts : List Token)
        → IsValid lib node
        → Inside 0 len ts
        → Sound lib len (or_loop lib eof fuel node ts)
    or_loop-Sound zero node ts v h = tt
    or_loop-Sound (suc fuel) node [] v h = (v, tt)
    or_loop-Sound (suc fuel) node (t ∷ ts) v h = elim (look-cases (codes "or") t ts) [
      | inl e ↦
          rw (e, or_loop)
            (then_parse-Sound (and_expr lib eof fuel ts)
              (λ right rest. or_loop lib eof fuel (bool_op BoolOp.or node right) rest)
              (and_expr-Sound fuel ts h.1)
              (λ right rest w k. or_loop-Sound fuel (bool_op BoolOp.or node right) rest (v, w) k))
      | inr (inl e) ↦ rw (e, or_loop) (v, h)
      | inr (inr e) ↦ rw (e, or_loop) (v, h)
    ]

    and_expr-Sound :
        (fuel : ℕ) (ts : List Token) → Inside 0 len ts → Sound lib len (and_expr lib eof fuel ts)
    and_expr-Sound zero ts h = tt
    and_expr-Sound (suc fuel) ts h =
        then_parse-Sound (unary lib eof fuel ts) (λ node rest. and_loop lib eof fuel node rest)
          (unary-Sound fuel ts h) (λ node rest v k. and_loop-Sound fuel node rest v k)

    and_loop-Sound :
        (fuel : ℕ) (node : Node) (ts : List Token)
        → IsValid lib node
        → Inside 0 len ts
        → Sound lib len (and_loop lib eof fuel node ts)
    and_loop-Sound zero node ts v h = tt
    and_loop-Sound (suc fuel) node [] v h = (v, tt)
    and_loop-Sound (suc fuel) node (t ∷ ts) v h =
        let next : Node → List Token → Parsed =
          (λ right rest. and_loop lib eof fuel (bool_op BoolOp.and node right) rest) in
        let step : (right : Node) (rest : List Token)
            → IsValid lib right
            → Inside 0 len rest
            → Sound lib len (next right rest) =
          (λ right rest w k. and_loop-Sound fuel (bool_op BoolOp.and node right) rest (v, w) k) in
        elim (look-cases (codes "and") t ts) [
          | inl e ↦
              rw (e, and_loop)
                (then_parse-Sound (unary lib eof fuel ts) next (unary-Sound fuel ts h.1) step)
          | inr (inl e) ↦
              rw (e, and_loop)
                (then_parse-Sound (unary lib eof fuel (t ∷ ts)) next (unary-Sound fuel (t ∷ ts) h)
                  step)
          | inr (inr e) ↦ rw (e, and_loop) (v, h)
        ]

    unary-Sound :
        (fuel : ℕ) (ts : List Token) → Inside 0 len ts → Sound lib len (unary lib eof fuel ts)
    unary-Sound zero ts h = tt
    unary-Sound (suc fuel) [] h = primary-Sound fuel [] h
    unary-Sound (suc fuel) (t ∷ ts) h = elim (look-cases (codes "not") t ts) [
      | inl e ↦
          rw (e, unary)
            (then_parse-Sound (unary lib eof fuel ts) (λ node rest. ok (negation node, rest))
              (unary-Sound fuel ts h.1) (λ node rest v k. (v, k)))
      | inr (inl e) ↦ rw (e, unary) (primary-Sound fuel (t ∷ ts) h)
      | inr (inr e) ↦ rw (e, unary) (primary-Sound fuel (t ∷ ts) h)
    ]

    primary-Sound :
        (fuel : ℕ) (ts : List Token) → Inside 0 len ts → Sound lib len (primary lib eof fuel ts)
    primary-Sound zero ts h = tt
    primary-Sound (suc fuel) [] h = end
    primary-Sound (suc fuel) (t ∷ ts) h = elim (look_paren-cases t ts) [
      | inl e ↦
          rw (e, primary)
            (then_parse-Sound (or_expr lib eof fuel ts) (λ node rest. close eof node rest)
              (or_expr-Sound fuel ts h.1) (λ node rest v k. close-Sound node rest v k))
      | inr e ↦ rw (e, primary) (parse_atom-Sound t ts (omega arith) h.1)
    ]

-- A tree that is valid, or an error that points into a text of a length, or `int`'s own error.
abbrev pub IsChecked : Lib → ℕ → Result Node → Type 0
IsChecked lib len (ok node) = IsValid lib node
IsChecked lib len (err e) = PointsInside len e

finish-IsChecked :
    (lib : Lib) (len : ℕ) (r : Parsed) → Sound lib len r → IsChecked lib len (finish r)
finish-IsChecked lib len (err e) h = h
finish-IsChecked lib len (ok (node, [])) h = h.0
finish-IsChecked lib len (ok (node, t ∷ ts)) h = omega arith

parse_tokens-IsChecked :
    (lib : Lib) (len : ℕ) (ts : List Token)
    → Inside 0 len ts
    → IsChecked lib len (parse_tokens lib len ts)
parse_tokens-IsChecked lib len [] h = omega arith
parse_tokens-IsChecked lib len (t ∷ ts) h =
    let eof : ℕ = end_from len (t ∷ ts) in
    let end : eof ≤ len = end_from-le len len (t ∷ ts) (omega arith) h in
    finish-IsChecked lib len (or_expr lib eof (6 * length (t ∷ ts) + 6) (t ∷ ts))
      (or_expr-Sound lib len eof end (6 * length (t ∷ ts) + 6) (t ∷ ts) h)

-- In a tree that `parse_bpf` returns every port is at most 65535, every host is a valid address and
-- every network is one that the `ipaddress` module made; and the position of a `BpfParseError` is at
-- most the length of the expression.
pub parse_bpf-IsChecked :
    (lib : Lib) (expr : Text) → IsChecked lib (length expr) (parse_bpf lib expr)
unfolding parse_bpf
parse_bpf-IsChecked lib expr = elim (Bool-cases (all is_space expr)) [
  | inl blank ↦ rw blank (omega arith)
  | inr text ↦
      rw text (parse_tokens-IsChecked lib (length expr) (tokenize expr) (tokenize-Inside expr))
]
