-- ===== src/Pcap/Flags.antt =====
-- pcap/synth.py: the flags of a stored packet, as the captures and the dissector write them.
use mathlib.Core.Path.{subst}
use net_audit.Packet.Dissect.{tcp_flag_names}
use net_audit.Packet.{flag_names}
use net_audit.Pcap.Synth.{parse_tcp_flags, flag_bits, split_flags, strip, lstrip, or_blank}
use net_audit.Common.Text.{Text, join, text_eq}
use net_audit.Common.{
  ◌==◌, ==→eq, Bool-cases, ℕ, zero, suc, ◌+◌, ◌≤◌, ◌<◌, ◌≡◌, refl, sym, ap, ◌∙◌, ◌⊎◌, inl, inr,
  Bool, true, ◌&&◌, Option, none, some, [], ◌∷◌, arith,
}

-- The text of some flag bits, with a separator.
abbrev pub flags_text : ℕ → ℕ → Text
flags_text sep bits = join (sep ∷ []) (flag_names tcp_flag_names bits)

reads_back : ℕ → ℕ → Bool
unfolding parse_tcp_flags flag_bits split_flags strip lstrip text_eq join flag_names
reads_back sep bits = parse_tcp_flags (some (flags_text sep bits)) == bits

-- A test at `n` numbers from `first` on.
all_from : (ℕ → Bool) → ℕ → ℕ → Bool
all_from f first zero = true
all_from f first (suc n) = f first && all_from f (first + 1) n

all_from-at :
    (f : ℕ → Bool) (first n k : ℕ)
    → all_from f first n ≡ true
    → first ≤ k
    → k < first + n
    → f k ≡ true
unfolding all_from
all_from-at f first zero k h low high = absurd (omega arith)
all_from-at f first (suc n) k h low high = elim (Bool-cases (first == k)) [
  | inl here ↦ subst (λ x. f x ≡ true) (==→eq first k here) (ground arith)
  | inr later ↦ all_from-at f (first + 1) n k (ground arith) (ground arith) (omega arith)
]

commas : all_from (reads_back b',') 0 256 ≡ true
unfolding all_from reads_back
commas = refl

bars : all_from (reads_back b'|') 0 256 ≡ true
unfolding all_from reads_back
bars = refl

-- A separator between flags.
abbrev pub IsSeparator : ℕ → Type 0
IsSeparator sep = (sep ≡ b',') ⊎ (sep ≡ b'|')

or_blank_flags :
    (flags : Option Text) → parse_tcp_flags flags ≡ parse_tcp_flags (some (or_blank flags))
unfolding parse_tcp_flags
or_blank_flags none = refl
or_blank_flags (some s) = refl

pub parse_tcp_flags-flags_text :
    (flags : Option Text) (sep bits : ℕ)
    → IsSeparator sep
    → bits < 256
    → or_blank flags ≡ flags_text sep bits
    → parse_tcp_flags flags ≡ bits
unfolding reads_back
parse_tcp_flags-flags_text flags sep bits is_sep byte e =
    or_blank_flags flags
    ∙ ap (λ s. parse_tcp_flags (some s)) e
    ∙ ==→eq (parse_tcp_flags (some (flags_text sep bits))) bits (elim is_sep [
      | inl comma ↦
          subst (λ c. reads_back c bits ≡ true) (sym comma)
            (all_from-at (reads_back b',') 0 256 bits commas (omega arith) (omega arith))
      | inr bar ↦
          subst (λ c. reads_back c bits ≡ true) (sym bar)
            (all_from-at (reads_back b'|') 0 256 bits bars (omega arith) (omega arith))
    ])
