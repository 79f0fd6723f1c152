-- ===== src/Pcap/Bpf/Parser.antt =====
-- pcap/bpf.py: the recursive-descent parser. The parser's position is the list of the tokens left;
-- `eof` is `_end_pos()`. The descent takes fuel.
use net_audit.Common.{
  ℕ, zero, suc, ◌+◌, ◌*◌, Bool, true, false, not, ◌&&◌, Option, none, some, List, [], ◌∷◌, ◌++◌,
  length, leb, if◌then◌else◌, map, any, all,
}
use net_audit.Common.Text.{Text, codes, text_eq}
use net_audit.Pcap.Bpf.{
  lparen, rparen, slash, word, Token, is_space, tokenize, Proto, Qualifier, BoolOp, Node, bool_op,
  negation, port_expr, host_expr, net_expr, Lib,
}

-- `BpfParseError` with its position; `bad_int` is the plain `ValueError` of `int`.
pub data Failure : Type 0 where
  parse_error : ℕ → Failure
  bad_int : Failure
  out_of_fuel : Failure

pub data Result {ℓ} (A : Type ℓ) : Type ℓ where
  ok : A → Result A
  err : Failure → Result A

-- `str.lower` on the letters that the keywords are written in.
abbrev pub lower_char : ℕ → ℕ
lower_char c = if leb b'A' c && leb c b'Z' then c + 32 else c

abbrev pub lower : Text → Text
lower = map lower_char

-- `tok.kind == "word" and tok.value.lower() == keyword`
unfoldable pub is_keyword : Text → Token → Bool
is_keyword keyword t = elim t.kind [ word ↦ text_eq (lower t.value) keyword | _ ↦ false ]

abbrev pub primary_start_keywords : List Text
primary_start_keywords =
    codes "tcp"
    ∷ codes "udp"
    ∷ codes "icmp"
    ∷ codes "port"
    ∷ codes "host"
    ∷ codes "net"
    ∷ codes "src"
    ∷ codes "dst"
    ∷ codes "not"
    ∷ []

unfoldable pub starts_primary : Token → Bool
unfolding is_keyword
starts_primary t = elim t.kind [
  | lparen ↦ true
  | word ↦ any (λ k. is_keyword k t) primary_start_keywords
  | _ ↦ false
]

abbrev pub Parsed : Type 0
Parsed = Result (Node × List Token)

-- The token in front, or an error at it, or at the end.
abbrev pub error_at : ℕ → List Token → Failure
error_at eof [] = parse_error eof
error_at eof (t ∷ ts) = parse_error t.pos

abbrev pub is_word : Token → Bool
is_word t = elim t.kind [ word ↦ true | _ ↦ false ]

module _ (lib : Lib) where
  abbrev pub port_of : Qualifier → ℕ → List Token → Option ℕ → Parsed
  port_of q pos ts none = err bad_int
  port_of q pos ts (some port) =
      if leb port 65535 then ok (port_expr q port, ts) else err (parse_error pos)

  unfoldable pub parse_port : ℕ → Qualifier → List Token → Parsed
  parse_port eof q [] = err (parse_error eof)
  parse_port eof q (t ∷ ts) =
      if is_word t && lib.is_digits t.value
      then port_of q t.pos ts (lib.to_int t.value)
      else err (parse_error t.pos)

  unfoldable pub parse_host : ℕ → Qualifier → List Token → Parsed
  parse_host eof q [] = err (parse_error eof)
  parse_host eof q (t ∷ ts) =
      if not (is_word t)
      then err (parse_error t.pos)
      else if lib.is_address t.value
      then ok (host_expr q t.value, ts)
      else err (parse_error t.pos)

  abbrev pub net_of : Qualifier → ℕ → List Token → Option Text → Parsed
  net_of q pos ts none = err (parse_error pos)
  net_of q pos ts (some network) = ok (net_expr q network, ts)

  abbrev pub parse_prefix : ℕ → Qualifier → Token → List Token → Parsed
  parse_prefix eof q addr [] = err (parse_error eof)
  parse_prefix eof q addr (t ∷ ts) =
      if is_word t && lib.is_digits t.value
      then net_of q addr.pos ts (lib.network (addr.value ++ (codes "/" ++ t.value)))
      else err (parse_error t.pos)

  abbrev pub parse_slash : ℕ → Qualifier → Token → List Token → Parsed
  parse_slash eof q addr [] = err (parse_error eof)
  parse_slash eof q addr (t ∷ ts) = elim t.kind [
    | slash ↦ parse_prefix eof q addr ts
    | _ ↦ err (parse_error t.pos)
  ]

  unfoldable pub parse_net : ℕ → Qualifier → List Token → Parsed
  parse_net eof q [] = err (parse_error eof)
  parse_net eof q (t ∷ ts) = if is_word t then parse_slash eof q t ts else err (parse_error t.pos)

  -- Behind the qualifier, if there is one: `t` is the token that names what is compared.
  unfoldable pub parse_compared : ℕ → Qualifier → Token → List Token → Parsed
  parse_compared eof q t ts =
      if is_keyword (codes "port") t
      then parse_port eof q ts
      else if is_keyword (codes "host") t
      then parse_host eof q ts
      else if is_keyword (codes "net") t
      then parse_net eof q ts
      else err (parse_error t.pos)

  unfoldable pub parse_qualified : ℕ → Qualifier → List Token → Parsed
  parse_qualified eof q [] = err (parse_error eof)
  parse_qualified eof q (t ∷ ts) =
      if is_word t then parse_compared eof q t ts else err (parse_error t.pos)

  -- A primary that is no parenthesis.
  unfoldable pub parse_atom : ℕ → Token → List Token → Parsed
  parse_atom eof t ts =
      if not (is_word t)
      then err (parse_error t.pos)
      else if is_keyword (codes "tcp") t
      then ok (Node.proto Proto.tcp, ts)
      else if is_keyword (codes "udp") t
      then ok (Node.proto Proto.udp, ts)
      else if is_keyword (codes "icmp") t
      then ok (Node.proto Proto.icmp, ts)
      else if is_keyword (codes "src") t
      then parse_qualified eof Qualifier.src ts
      else if is_keyword (codes "dst") t
      then parse_qualified eof Qualifier.dst ts
      else parse_compared eof Qualifier.either t ts

abbrev pub then_parse : Parsed → (Node → List Token → Parsed) → Parsed
then_parse (err e) next = err e
then_parse (ok (node, ts)) next = next node ts

-- The closing parenthesis.
abbrev pub close : ℕ → Node → List Token → Parsed
close eof node [] = err (parse_error eof)
close eof node (t ∷ ts) = elim t.kind [ rparen ↦ ok (node, ts) | _ ↦ err (parse_error t.pos) ]

-- What the descent meets in front of it.
pub data Ahead : Type 0 where
  nothing : Ahead
  keyword open_paren starting other : Token → List Token → Ahead

abbrev pub look : Text → List Token → Ahead
look k [] = nothing
look k (t ∷ ts) =
    if is_keyword k t then keyword t ts else if starts_primary t then starting t ts else other t ts

abbrev pub look_paren : List Token → Ahead
look_paren [] = nothing
look_paren (t ∷ ts) = elim t.kind [ lparen ↦ open_paren t ts | _ ↦ other t ts ]

module _ (lib : Lib) (eof : ℕ) where
  unfoldable mutual
    pub or_expr : ℕ → List Token → Parsed
    or_expr zero ts = err out_of_fuel
    or_expr (suc fuel) ts = then_parse (and_expr fuel ts) (λ node rest. or_loop fuel node rest)

    pub or_loop : ℕ → Node → List Token → Parsed
    or_loop zero node ts = err out_of_fuel
    or_loop (suc fuel) node ts = elim (look (codes "or") ts) [
      | keyword t rest ↦
          then_parse (and_expr fuel rest)
            (λ right rest'. or_loop fuel (bool_op BoolOp.or node right) rest')
      | _ ↦ ok (node, ts)
    ]

    pub and_expr : ℕ → List Token → Parsed
    and_expr zero ts = err out_of_fuel
    and_expr (suc fuel) ts = then_parse (unary fuel ts) (λ node rest. and_loop fuel node rest)

    -- Terms that stand side by side are joined as by `and`.
    pub and_loop : ℕ → Node → List Token → Parsed
    and_loop zero node ts = err out_of_fuel
    and_loop (suc fuel) node ts = elim (look (codes "and") ts) [
      | keyword t rest ↦
          then_parse (unary fuel rest)
            (λ right rest'. and_loop fuel (bool_op BoolOp.and node right) rest')
      | starting t rest ↦
          then_parse (unary fuel ts)
            (λ right rest'. and_loop fuel (bool_op BoolOp.and node right) rest')
      | _ ↦ ok (node, ts)
    ]

    pub unary : ℕ → List Token → Parsed
    unary zero ts = err out_of_fuel
    unary (suc fuel) ts = elim (look (codes "not") ts) [
      | keyword t rest ↦ then_parse (unary fuel rest) (λ node rest'. ok (negation node, rest'))
      | _ ↦ primary fuel ts
    ]

    pub primary : ℕ → List Token → Parsed
    primary zero ts = err out_of_fuel
    primary (suc fuel) ts = elim (look_paren ts) [
      | open_paren t rest ↦ then_parse (or_expr fuel rest) (λ node rest'. close eof node rest')
      | other t rest ↦ parse_atom lib eof t rest
      | _ ↦ err (parse_error eof)
    ]

-- `parse`: nothing may be left.
abbrev pub finish : Parsed → Result Node
finish (err e) = err e
finish (ok (node, [])) = ok node
finish (ok (node, t ∷ ts)) = err (parse_error t.pos)

abbrev pub end_from : ℕ → List Token → ℕ
end_from eof [] = eof
end_from eof (t ∷ ts) = end_from (t.pos + length t.value) ts

abbrev pub parse_tokens : Lib → ℕ → List Token → Result Node
parse_tokens lib source_len [] = err (parse_error 0)
parse_tokens lib source_len (t ∷ ts) =
    finish (or_expr lib (end_from source_len (t ∷ ts)) (6 * length (t ∷ ts) + 6) (t ∷ ts))

-- `not expr or not expr.strip()`: an expression of spaces has no token, and the error is the same.
unfoldable pub parse_bpf : Lib → Text → Result Node
unfolding or_expr
parse_bpf lib expr =
    if all is_space expr
    then err (parse_error 0)
    else parse_tokens lib (length expr) (tokenize expr)
