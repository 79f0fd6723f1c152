-- ===== src/Pcap/Bpf.antt =====
-- pcap/bpf.py: capture filters. Tokens, syntax trees, and the tokeniser. Texts are lists of code points.
pub mod Parser
pub mod Evaluate
pub mod Enough
pub mod Positions
pub mod Checked
use net_audit.Common.{
  ℕ, zero, suc, ◌+◌, Bool, true, false, not, ◌&&◌, ◌||◌, Option, none, some, List, [], ◌∷◌, ◌++◌,
  length, ltb, leb, ◌==◌, if◌then◌else◌, map, any,
}
use net_audit.Common.Text.{Text}

pub data TokenKind : Type 0 where
  lparen rparen slash word : TokenKind

pub record Token : Type 0 where
  pub kind : TokenKind
  pub value : Text
  pub pos : ℕ

-- `\s` of a pattern on `str`: the characters that `str.isspace` accepts.
unfoldable pub is_space : ℕ → Bool
is_space c =
    (leb 9 c && leb c 13)
    || (leb 28 c && leb c 32)
    || c == 0x85
    || c == 0xA0
    || c == 0x1680
    || (leb 0x2000 c && leb c 0x200A)
    || c == 0x2028
    || c == 0x2029
    || c == 0x202F
    || c == 0x205F
    || c == 0x3000

-- What a character starts: one of the three marks, nothing, or a word.
pub data CharClass : Type 0 where
  mark : TokenKind → CharClass
  space in_word : CharClass

unfoldable pub class_of : ℕ → CharClass
class_of c =
    if c == b'('
    then mark lparen
    else if c == b')'
    then mark rparen
    else if c == b'/'
    then mark slash
    else if is_space c
    then space
    else in_word

-- A character goes in front of the word that follows it at once, or is a word of its own. `joined` is
-- whether the text behind it starts with a character of a word.
abbrev pub put_char : ℕ → ℕ → Bool → List Token → List Token
put_char c pos true (t ∷ ts) = record { kind = word; value = c ∷ t.value; pos = pos } ∷ ts
put_char c pos _ ts = record { kind = word; value = c ∷ []; pos = pos } ∷ ts

abbrev pub is_word_class : CharClass → Bool
is_word_class in_word = true
is_word_class _ = false

abbrev pub starts_word : Text → Bool
starts_word [] = false
starts_word (c ∷ s) = is_word_class (class_of c)

abbrev pub put_class : CharClass → ℕ → ℕ → Bool → List Token → List Token
put_class (mark k) c pos joined ts = record { kind = k; value = c ∷ []; pos = pos } ∷ ts
put_class space c pos joined ts = ts
put_class in_word c pos joined ts = put_char c pos joined ts

-- The matches of `\(|\)|/|[^\s()/]+` from left to right, from an offset on.
unfoldable pub tokenize_from : ℕ → Text → List Token
tokenize_from pos [] = []
tokenize_from pos (c ∷ s) = put_class (class_of c) c pos (starts_word s) (tokenize_from (pos + 1) s)

unfoldable pub tokenize : Text → List Token
unfolding tokenize_from class_of is_space
tokenize = tokenize_from 0

pub data Proto : Type 0 where
  tcp udp icmp : Proto

pub data Qualifier : Type 0 where
  either src dst : Qualifier

pub data BoolOp : Type 0 where
  and or : BoolOp

pub data Node : Type 0 where
  bool_op : BoolOp → Node → Node → Node
  negation : Node → Node
  proto : Proto → Node
  port_expr : Qualifier → ℕ → Node
  host_expr net_expr : Qualifier → Text → Node

-- What the parser asks of the standard library: `str.isdigit` and `int` of a text,
-- `ipaddress.ip_address`, `str(ipaddress.ip_network(text, strict=False))`, and membership.
pub record Lib : Type 0 where
  pub is_digits : Text → Bool
  pub to_int : Text → Option ℕ
  pub is_address : Text → Bool
  pub network : Text → Option Text
  pub in_network : Text → Text → Bool
