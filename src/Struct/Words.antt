-- ===== src/Struct/Words.antt =====
-- Numbers as bytes: reading back what was written, in both byte orders.
use mathlib.Core.List.{reverse, reverse-reverse, reverse-append}
use native.Mathlib.Nat.{pow-suc}
use net_audit.Common.{
  ℕ, zero, suc, ◌/◌, ◌^◌, ◌<◌, ◌≡◌, refl, ap, ◌∙◌, List, [], ◌∷◌, arith, length, length-append, All,
}
use net_audit.Struct.{ByteOrder, little, big, to_bytes_le, from_bytes_le, to_bytes, from_bytes}

abbrev pub IsByte : ℕ → Type 0
IsByte b = b < 256

from_bytes_le-to_bytes_le : (w n : ℕ) → n < 256 ^ w → from_bytes_le (to_bytes_le w n) ≡ n
unfolding to_bytes_le from_bytes_le
from_bytes_le-to_bytes_le zero n h = omega arith
from_bytes_le-to_bytes_le (suc w) n h =
    omega (arith, from_bytes_le-to_bytes_le w (n / 256) (omega (arith, pow-suc 256 w)))

length-to_bytes_le : (w n : ℕ) → length (to_bytes_le w n) ≡ w
unfolding to_bytes_le
length-to_bytes_le zero n = refl
length-to_bytes_le (suc w) n = ap suc (length-to_bytes_le w (n / 256))

to_bytes_le-IsByte : (w n : ℕ) → All IsByte (to_bytes_le w n)
unfolding to_bytes_le
to_bytes_le-IsByte zero n = tt
to_bytes_le-IsByte (suc w) n = (omega arith, to_bytes_le-IsByte w (n / 256))

length-reverse : (xs : List ℕ) → length (reverse xs) ≡ length xs
length-reverse [] = refl
length-reverse (x ∷ xs) =
    ap length (reverse-append (x ∷ []) xs)
    ∙ omega (arith, length-append (reverse xs) (x ∷ []), length-reverse xs)

pub from_bytes-to_bytes :
    (o : ByteOrder) (w n : ℕ) → n < 256 ^ w → from_bytes o (to_bytes o w n) ≡ n
unfolding to_bytes from_bytes
from_bytes-to_bytes little w n h = from_bytes_le-to_bytes_le w n h
from_bytes-to_bytes big w n h =
    ap from_bytes_le (reverse-reverse (to_bytes_le w n)) ∙ from_bytes_le-to_bytes_le w n h

pub length-to_bytes : (o : ByteOrder) (w n : ℕ) → length (to_bytes o w n) ≡ w
unfolding to_bytes
length-to_bytes little w n = length-to_bytes_le w n
length-to_bytes big w n = length-reverse (to_bytes_le w n) ∙ length-to_bytes_le w n
