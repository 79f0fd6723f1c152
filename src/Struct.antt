-- ===== src/Struct.antt =====
-- Python's `struct`: fields of fixed width in either byte order. A format is the list of its
-- fields' widths in bytes (`B` 1, `H` 2, `I` 4). `pack` and `unpack` fail where `struct.error` is raised.
pub mod Words
pub mod Laws
use net_audit.Common.{
  ℕ, zero, suc, ◌+◌, ◌*◌, ◌/◌, ◌%◌, ◌^◌, ◌≤◌, Bool, Option, none, some, List, [], ◌∷◌, ◌++◌, length,
  take, drop, ltb, ◌==◌, if◌then◌else◌,
}
use mathlib.Core.List.{reverse}

pub data ByteOrder : Type 0 where
  little big : ByteOrder

-- The `w` bytes of a number, the lowest first.
unfoldable pub to_bytes_le : ℕ → ℕ → List ℕ
to_bytes_le zero n = []
to_bytes_le (suc w) n = (n % 256) ∷ to_bytes_le w (n / 256)

unfoldable pub from_bytes_le : List ℕ → ℕ
from_bytes_le [] = 0
from_bytes_le (b ∷ bs) = b + 256 * from_bytes_le bs

unfoldable pub to_bytes : ByteOrder → ℕ → ℕ → List ℕ
unfolding to_bytes_le
to_bytes little w n = to_bytes_le w n
to_bytes big w n = reverse (to_bytes_le w n)

unfoldable pub from_bytes : ByteOrder → List ℕ → ℕ
unfolding from_bytes_le
from_bytes little bs = from_bytes_le bs
from_bytes big bs = from_bytes_le (reverse bs)

-- struct.calcsize
abbrev pub calcsize : List ℕ → ℕ
calcsize [] = 0
calcsize (w ∷ ws) = w + calcsize ws

unfoldable pub pack : ByteOrder → List ℕ → List ℕ → Option (List ℕ)
unfolding to_bytes
pack o [] [] = some []
pack o [] (v ∷ vs) = none
pack o (w ∷ ws) [] = none
pack o (w ∷ ws) (v ∷ vs) =
    if ltb v (256 ^ w)
    then elim (pack o ws vs) [ none ↦ none | some rest ↦ some (to_bytes o w v ++ rest) ]
    else none

-- The fields of bytes that are known to be long enough.
unfoldable pub fields : ByteOrder → List ℕ → List ℕ → List ℕ
unfolding from_bytes
fields o [] raw = []
fields o (w ∷ ws) raw = from_bytes o (take w raw) ∷ fields o ws (drop w raw)

-- `struct.error` unless the buffer has exactly the size of the format.
unfoldable pub unpack : ByteOrder → List ℕ → List ℕ → Option (List ℕ)
unfolding fields
unpack o ws raw = if length raw == calcsize ws then some (fields o ws raw) else none
