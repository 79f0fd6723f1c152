-- ===== src/Pcap/Bpf/Enough.antt =====
-- The fuel of the parser is enough: each call takes a token, or is one of four levels down on the same tokens.
use net_audit.Common.Text.{codes}
use net_audit.Common.Text.{Text}
use net_audit.Common.{
  Bool-cases, length, all, ℕ, zero, suc, ◌+◌, ◌*◌, ◌≤◌, ◌<◌, ◌≡◌, ◌≢◌, ◌⊎◌, inl, inr, List, [], ◌∷◌,
  arith,
}
use net_audit.Pcap.Bpf.Parser.{
  or_expr, Parsed, parse_error, bad_int, parse_net, parse_port, parse_host, parse_compared,
  parse_qualified, parse_atom, err, then_parse, out_of_fuel, close, and_expr, ok, or_loop, and_loop,
  unary, primary, look_paren, finish, parse_tokens, parse_bpf, look, open_paren, end_from, keyword,
  other, starting,
}
use net_audit.Pcap.Bpf.{Lib, Node, Token, Qualifier, bool_op, is_space, BoolOp, tokenize, negation}

-- A result that is no lack of fuel, and leaves fewer than `n` tokens.
abbrev Within : ℕ → Parsed → Type 0
Within n (err e) = e ≢ out_of_fuel
Within n (ok (node, ts)) = length ts < n

then_parse-Within :
    (n k : ℕ) (m : Parsed) (next : Node → List Token → Parsed)
    → Within n m
    → ((node : Node) (rest : List Token) → length rest < n → Within k (next node rest))
    → Within k (then_parse m next)
then_parse-Within n k (err e) next h step = h
then_parse-Within n k (ok (node, rest)) next h step = step node rest h

error-fuel : (pos : ℕ) → parse_error pos ≢ out_of_fuel
error-fuel pos h = cc

int-fuel : bad_int ≢ out_of_fuel
int-fuel h = cc

grow : (n k : ℕ) (r : Parsed) → Within (suc n) r → n < k → Within k r
grow n k (err e) h less = h
grow n k (ok (node, ts)) h less = omega arith

close-Within :
    (n eof : ℕ) (node : Node) (ts : List Token) → length ts ≤ n → Within n (close eof node ts)
close-Within n eof node [] h = error-fuel eof
close-Within n eof node (t ∷ ts) h = ground (arith, error-fuel t.pos)

module _ (lib : Lib) where
  parse_net-Within :
      (eof : ℕ) (q : Qualifier) (ts : List Token)
      → Within (suc (length ts)) (parse_net lib eof q ts)
  unfolding parse_net
  parse_net-Within eof q [] = error-fuel eof
  parse_net-Within eof q (a ∷ []) = ground (arith, error-fuel eof, error-fuel a.pos)
  parse_net-Within eof q (a ∷ b ∷ []) =
      ground (arith, error-fuel eof, error-fuel a.pos, error-fuel b.pos)
  parse_net-Within eof q (a ∷ b ∷ c ∷ ts) =
      ground (arith, error-fuel a.pos, error-fuel b.pos, error-fuel c.pos)

  parse_port-Within :
      (eof : ℕ) (q : Qualifier) (ts : List Token)
      → Within (suc (length ts)) (parse_port lib eof q ts)
  unfolding parse_port
  parse_port-Within eof q [] = error-fuel eof
  parse_port-Within eof q (t ∷ ts) = ground (arith, error-fuel t.pos, int-fuel)

  parse_host-Within :
      (eof : ℕ) (q : Qualifier) (ts : List Token)
      → Within (suc (length ts)) (parse_host lib eof q ts)
  unfolding parse_host
  parse_host-Within eof q [] = error-fuel eof
  parse_host-Within eof q (t ∷ ts) = ground (arith, error-fuel t.pos)

  parse_compared-Within :
      (eof : ℕ) (q : Qualifier) (t : Token) (ts : List Token)
      → Within (suc (length ts)) (parse_compared lib eof q t ts)
  unfolding parse_compared
  parse_compared-Within eof q t ts = ground (
    arith,
    error-fuel t.pos,
    parse_net-Within eof q ts,
    parse_port-Within eof q ts,
    parse_host-Within eof q ts,
  )

  parse_qualified-Within :
      (eof : ℕ) (q : Qualifier) (ts : List Token)
      → Within (suc (length ts)) (parse_qualified lib eof q ts)
  unfolding parse_qualified
  parse_qualified-Within eof q [] = error-fuel eof
  parse_qualified-Within eof q (t ∷ ts) =
      ground (arith, error-fuel t.pos, parse_compared-Within eof q t ts)

  parse_atom-Within :
      (eof : ℕ) (t : Token) (ts : List Token) → Within (suc (length ts)) (parse_atom lib eof t ts)
  unfolding parse_atom
  parse_atom-Within eof t ts = ground (
    arith,
    error-fuel t.pos,
    parse_compared-Within eof Qualifier.either t ts,
    parse_qualified-Within eof Qualifier.src ts,
    parse_qualified-Within eof Qualifier.dst ts,
  )

-- What stands in front: the keyword, the start of a term, or something else.
pub look-cases :
    (k : Text) (t : Token) (ts : List Token)
    → (look k (t ∷ ts) ≡ keyword t ts)
      ⊎ ((look k (t ∷ ts) ≡ starting t ts) ⊎ (look k (t ∷ ts) ≡ other t ts))
look-cases k t ts = ground arith

pub look_paren-cases :
    (t : Token) (ts : List Token)
    → (look_paren (t ∷ ts) ≡ open_paren t ts) ⊎ (look_paren (t ∷ ts) ≡ other t ts)
look_paren-cases t ts = ground arith

module _ (lib : Lib) (eof : ℕ) where
  mutual
    unfolding or_expr

    or_expr-Within :
        (fuel : ℕ) (ts : List Token)
        → 6 * length ts + 4 < fuel
        → Within (length ts) (or_expr lib eof fuel ts)
    or_expr-Within zero ts h = absurd (omega arith)
    or_expr-Within (suc fuel) ts h =
        then_parse-Within (length ts) (length ts) (and_expr lib eof fuel ts)
          (λ node rest. or_loop lib eof fuel node rest) (and_expr-Within fuel ts (omega arith))
          (λ node rest less.
            grow (length rest) (length ts) (or_loop lib eof fuel node rest)
              (or_loop-Within fuel node rest (omega arith)) less)

    or_loop-Within :
        (fuel : ℕ) (node : Node) (ts : List Token)
        → 6 * length ts + 3 < fuel
        → Within (suc (length ts)) (or_loop lib eof fuel node ts)
    or_loop-Within zero node ts h = absurd (omega arith)
    or_loop-Within (suc fuel) node [] h = omega arith
    or_loop-Within (suc fuel) node (t ∷ ts) h = elim (look-cases (codes "or") t ts) [
      | inl e ↦
          rw (e, or_loop)
            (then_parse-Within (length ts) (suc (suc (length ts))) (and_expr lib eof fuel ts)
              (λ right rest. or_loop lib eof fuel (bool_op BoolOp.or node right) rest)
              (and_expr-Within fuel ts (omega arith))
              (λ right rest less.
                grow (length rest) (suc (suc (length ts)))
                  (or_loop lib eof fuel (bool_op BoolOp.or node right) rest)
                  (or_loop-Within fuel (bool_op BoolOp.or node right) rest (omega arith))
                  (omega arith)))
      | inr (inl e) ↦ rw (e, or_loop) (omega arith)
      | inr (inr e) ↦ rw (e, or_loop) (omega arith)
    ]

    and_expr-Within :
        (fuel : ℕ) (ts : List Token)
        → 6 * length ts + 3 < fuel
        → Within (length ts) (and_expr lib eof fuel ts)
    and_expr-Within zero ts h = absurd (omega arith)
    and_expr-Within (suc fuel) ts h =
        then_parse-Within (length ts) (length ts) (unary lib eof fuel ts)
          (λ node rest. and_loop lib eof fuel node rest) (unary-Within fuel ts (omega arith))
          (λ node rest less.
            grow (length rest) (length ts) (and_loop lib eof fuel node rest)
              (and_loop-Within fuel node rest (omega arith)) less)

    and_loop-Within :
        (fuel : ℕ) (node : Node) (ts : List Token)
        → 6 * length ts + 3 < fuel
        → Within (suc (length ts)) (and_loop lib eof fuel node ts)
    and_loop-Within zero node ts h = absurd (omega arith)
    and_loop-Within (suc fuel) node [] h = omega arith
    and_loop-Within (suc fuel) node (t ∷ ts) h =
        let next = λ (right : Node) (rest : List Token).
          and_loop lib eof fuel (bool_op BoolOp.and node right) rest in
        let step = λ (right : Node) (rest : List Token) (less : length rest < suc (length ts)).
          grow (length rest) (suc (suc (length ts)))
            (and_loop lib eof fuel (bool_op BoolOp.and node right) rest)
            (and_loop-Within fuel (bool_op BoolOp.and node right) rest (omega arith))
            (omega arith) in
        elim (look-cases (codes "and") t ts) [
          | inl e ↦
              rw (e, and_loop)
                (then_parse-Within (length ts) (suc (suc (length ts))) (unary lib eof fuel ts) next
                  (unary-Within fuel ts (omega arith))
                  (λ right rest less. step right rest (omega arith)))
          | inr (inl e) ↦
              rw (e, and_loop)
                (then_parse-Within (suc (length ts)) (suc (suc (length ts)))
                  (unary lib eof fuel (t ∷ ts)) next (unary-Within fuel (t ∷ ts) (omega arith))
                  step)
          | inr (inr e) ↦ rw (e, and_loop) (omega arith)
        ]

    unary-Within :
        (fuel : ℕ) (ts : List Token)
        → 6 * length ts + 2 < fuel
        → Within (length ts) (unary lib eof fuel ts)
    unary-Within zero ts h = absurd (omega arith)
    unary-Within (suc fuel) [] h = primary-Within fuel [] (omega arith)
    unary-Within (suc fuel) (t ∷ ts) h = elim (look-cases (codes "not") t ts) [
      | inl e ↦
          rw (e, unary)
            (then_parse-Within (length ts) (suc (length ts)) (unary lib eof fuel ts)
              (λ node rest. ok (negation node, rest)) (unary-Within fuel ts (omega arith))
              (λ node rest less. omega arith))
      | inr (inl e) ↦ rw (e, unary) (primary-Within fuel (t ∷ ts) (omega arith))
      | inr (inr e) ↦ rw (e, unary) (primary-Within fuel (t ∷ ts) (omega arith))
    ]

    primary-Within :
        (fuel : ℕ) (ts : List Token)
        → 6 * length ts + 1 < fuel
        → Within (length ts) (primary lib eof fuel ts)
    primary-Within zero ts h = absurd (omega arith)
    primary-Within (suc fuel) [] h = error-fuel eof
    primary-Within (suc fuel) (t ∷ ts) h = elim (look_paren-cases t ts) [
      | inl e ↦
          rw (e, primary)
            (then_parse-Within (length ts) (suc (length ts)) (or_expr lib eof fuel ts)
              (λ node rest. close eof node rest) (or_expr-Within fuel ts (omega arith))
              (λ node rest less. close-Within (suc (length ts)) eof node rest (omega arith)))
      | inr e ↦ rw (e, primary) (parse_atom-Within lib eof t ts)
    ]

finish-fuel : (n : ℕ) (r : Parsed) → Within n r → finish r ≢ err out_of_fuel
finish-fuel n (err e) h q = h (ground arith)
finish-fuel n (ok (node, [])) h q = cc
finish-fuel n (ok (node, t ∷ ts)) h q = cc

parse_tokens-fuel :
    (lib : Lib) (len : ℕ) (ts : List Token) → parse_tokens lib len ts ≢ err out_of_fuel
parse_tokens-fuel lib len [] q = cc
parse_tokens-fuel lib len (t ∷ ts) q =
    finish-fuel (suc (length ts))
      (or_expr lib (end_from len (t ∷ ts)) (6 * length (t ∷ ts) + 6) (t ∷ ts))
      (or_expr-Within lib (end_from len (t ∷ ts)) (6 * length (t ∷ ts) + 6) (t ∷ ts) (omega arith))
      q

-- The parser ends on every text: `parse_bpf` gives a tree or an error, and its fuel never runs out.
pub parse_bpf_ends : (lib : Lib) (expr : Text) → parse_bpf lib expr ≢ err out_of_fuel
unfolding parse_bpf
parse_bpf_ends lib expr = elim (Bool-cases (all is_space expr)) [
  | inl blank ↦ rw blank (λ q. cc)
  | inr text ↦ rw text (parse_tokens-fuel lib (length expr) (tokenize expr))
]
