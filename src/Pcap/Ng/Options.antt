-- ===== src/Pcap/Ng/Options.antt =====
-- The loop over an interface's options: it raises nothing, and its fuel is enough.
use net_audit.Struct.{from_bytes, fields, ByteOrder, unpack}
use net_audit.Common.{
  ltb, lt→ltb, ltb→ge, Bool-cases, length, take, drop, length-take, length-drop, ℕ, zero, suc, ◌≤◌,
  ◌≡◌, refl, inl, inr, Option, none, some, List, [], ◌∷◌, arith,
}
use net_audit.Struct.Laws.{unpack_total}
use net_audit.Pcap.Ng.{Resolution, after_option, option_step, read_option, parse_options, padded}
use net_audit.Pcap.Format.{Result, ok}

read_option-full :
    (o : ByteOrder) (options : List ℕ) (found : Resolution)
    → 4 ≤ length options
    → read_option o options found (unpack o (2 ∷ 2 ∷ []) (take 4 options))
      ≡ ok (
          option_step
            (from_bytes o (take 2 (take 4 options)))
            (from_bytes o (take 2 (drop 2 (take 4 options))))
            (drop 4 options)
            found)
unfolding fields
read_option-full o options found h =
    rw (unpack_total o (2 ∷ 2 ∷ []) (take 4 options) (omega (arith, length-take 4 options)))

-- The options left behind one option are no longer than what stood behind its header.
abbrev Shrinks : ℕ → Option (List ℕ × Resolution) → Type 0
Shrinks n none = Unit
Shrinks n (some (rest, found)) = length rest ≤ n

option_step-Shrinks :
    (code len : ℕ) (rest : List ℕ) (found : Resolution)
    → Shrinks (length rest) (option_step code len rest found)
option_step-Shrinks code len rest found = ground (arith, length-drop (padded len) rest)

after_option-raises :
    (found : Resolution) (m : Option (List ℕ × Resolution))
    (next : List ℕ → Resolution → Result Resolution)
    → ((rest : List ℕ) (found' : Resolution) → (r : Resolution) × (next rest found' ≡ ok r))
    → (r : Resolution) × (after_option found (ok m) next ≡ ok r)
after_option-raises found none next h = (found, refl)
after_option-raises found (some (rest, found')) next h = h rest found'

after_option-same :
    (found : Resolution) (n : ℕ) (m : Option (List ℕ × Resolution))
    (next next' : List ℕ → Resolution → Result Resolution)
    → Shrinks n m
    → ((rest : List ℕ) (found' : Resolution)
        → length rest ≤ n
        → next rest found' ≡ next' rest found')
    → after_option found (ok m) next ≡ after_option found (ok m) next'
after_option-same found n none next next' s h = refl
after_option-same found n (some (rest, found')) next next' s h = h rest found' s

-- It never raises.
pub parse_options-total :
    (fuel : ℕ) (o : ByteOrder) (options : List ℕ) (found : Resolution)
    → (r : Resolution) × (parse_options fuel o options found ≡ ok r)
unfolding parse_options
parse_options-total zero o options found = (found, refl)
parse_options-total (suc fuel) o options found = elim (Bool-cases (ltb (length options) 4)) [
  | inl short ↦ (found, rw (short, parse_options))
  | inr full ↦
      let (r, e) =
        after_option-raises found
          (option_step (from_bytes o (take 2 (take 4 options)))
            (from_bytes o (take 2 (drop 2 (take 4 options)))) (drop 4 options) found)
          (λ rest found'. parse_options fuel o rest found')
          (λ rest found'. parse_options-total fuel o rest found') in
      (r, rw (full, read_option-full o options found (ltb→ge _ _ full), parse_options) e)
]

-- Fuel as large as the number of bytes is enough: more changes nothing.
pub parse_options-fuel :
    (fuel more : ℕ) (o : ByteOrder) (options : List ℕ) (found : Resolution)
    → length options ≤ fuel
    → fuel ≤ more
    → parse_options fuel o options found ≡ parse_options more o options found
unfolding parse_options
parse_options-fuel zero zero o options found h k = refl
parse_options-fuel zero (suc more) o options found h k =
    rw (lt→ltb (length options) 4 (omega arith), parse_options)
parse_options-fuel (suc fuel) zero o options found h k = absurd (omega arith)
parse_options-fuel (suc fuel) (suc more) o options found h k =
    elim (Bool-cases (ltb (length options) 4)) [
      | inl short ↦ rw (short, parse_options)
      | inr full ↦
          rw (full, read_option-full o options found (ltb→ge _ _ full), parse_options)
            (after_option-same found (length (drop 4 options)) _
              (λ rest found'. parse_options fuel o rest found')
              (λ rest found'. parse_options more o rest found')
              (option_step-Shrinks (from_bytes o (take 2 (take 4 options)))
                (from_bytes o (take 2 (drop 2 (take 4 options)))) (drop 4 options) found)
              (λ rest found' less.
                parse_options-fuel fuel more o rest found'
                  (omega (arith, length-drop 4 options, ltb→ge (length options) 4 full))
                  (omega arith)))
    ]
