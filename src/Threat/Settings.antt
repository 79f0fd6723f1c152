-- ===== src/Threat/Settings.antt =====
-- threat/engine.py: `patch_detector`, the settings of a detector, and the bounds of its tunables.
use net_audit.Common.Text.{Text, text_eq}
use net_audit.Common.Int.{ℤ, pos, negsuc}
use net_audit.Threat.Engine.{
  Number, whole, fraction, infinite, minus_infinite, not_a_number, Tunable, number_value,
  bool_value, str_value, int_type, float_type, bool_type, str_type, Runtime, TunableSpec,
  TunableType, save_detector_settings, Engine,
}
use net_audit.Common.{
  ltb, if◌then◌else◌, ◌+◌, ◌-◌, ◌*◌, ◌^◌, Bool, true, false, Option, none, some, List, [], ◌∷◌,
}

abbrev pub ltb_ℤ : ℤ → ℤ → Bool
ltb_ℤ (pos a) (pos b) = ltb a b
ltb_ℤ (pos a) (negsuc b) = false
ltb_ℤ (negsuc a) (pos b) = true
ltb_ℤ (negsuc a) (negsuc b) = ltb b a

-- An int as a multiple of 2 ^ -1074.
unfoldable pub scaled : ℤ → ℤ
scaled (pos a) = pos (a * 2 ^ 1074)
scaled (negsuc a) = negsuc ((a + 1) * 2 ^ 1074 - 1)

-- Python's `<`, which compares an int and a float exactly, and is false at a NaN.
unfoldable pub less : Number → Number → Bool
unfolding scaled
less not_a_number b = false
less a not_a_number = false
less infinite b = false
less a minus_infinite = false
less minus_infinite b = true
less a infinite = true
less (whole a) (whole b) = ltb_ℤ a b
less (whole a) (fraction b) = ltb_ℤ (scaled a) b
less (fraction a) (whole b) = ltb_ℤ a (scaled b)
less (fraction a) (fraction b) = ltb_ℤ a b

-- The refusals, without their texts.
pub data Refusal : Type 0 where
  not_found enabled_not_boolean tunables_not_object : Refusal
  unknown_tunable not_bool not_int not_number not_string below_min above_max : Text → Refusal

abbrev pub below : Number → Option Number → Bool
below value none = false
below value (some bound) = less value bound

abbrev pub above : Number → Option Number → Bool
above value none = false
above value (some bound) = less bound value

unfoldable pub check_range : TunableSpec → Number → Option Refusal
unfolding less
check_range spec value =
    if below value spec.lowest
    then some (below_min spec.spec_key)
    else if above value spec.highest
    then some (above_max spec.spec_key)
    else none

unfoldable pub validate_as : TunableType → TunableSpec → Tunable → Option Refusal
unfolding check_range
validate_as bool_type spec (bool_value b) = none
validate_as bool_type spec _ = some (not_bool spec.spec_key)
validate_as int_type spec (number_value (whole n)) = check_range spec (whole n)
validate_as int_type spec _ = some (not_int spec.spec_key)
validate_as float_type spec (number_value n) = check_range spec n
validate_as float_type spec _ = some (not_number spec.spec_key)
validate_as str_type spec (str_value s) = none
validate_as str_type spec _ = some (not_string spec.spec_key)

unfoldable pub validate_tunable : TunableSpec → Tunable → Option Refusal
unfolding validate_as
validate_tunable spec value = validate_as spec.spec_type spec value

unfoldable pub spec_of : Text → List TunableSpec → Option TunableSpec
spec_of key [] = none
spec_of key (s ∷ ss) = if text_eq s.spec_key key then some s else spec_of key ss

-- `runtime.tunables[key] = value`
unfoldable pub set_tunable : Text → Tunable → List (Text × Tunable) → List (Text × Tunable)
set_tunable key value [] = (key, value) ∷ []
set_tunable key value ((k, v) ∷ rest) =
    let after : List (Text × Tunable) = set_tunable key value rest in
    if text_eq k key then (k, value) ∷ rest else (k, v) ∷ after

abbrev pub refusal_of : Text → Option TunableSpec → Tunable → Option Refusal
refusal_of key none value = some (unknown_tunable key)
refusal_of key (some spec) value = validate_tunable spec value

-- The values in the request's order: the first refusal ends the loop, with what was set before.
unfoldable pub patch_tunables : List (Text × Tunable) → Runtime → Option Refusal × Runtime
unfolding spec_of validate_tunable set_tunable
patch_tunables [] r = (none, r)
patch_tunables ((key, value) ∷ rest) r = elim (refusal_of key (spec_of key r.specs) value) [
  | some refusal ↦ (some refusal, r)
  | none ↦ patch_tunables rest (record r { tunables = set_tunable key value r.tunables })
]

-- `"enabled" in body`, and what it is.
abbrev pub patch_enabled : Option Tunable → Runtime → Option Refusal × Runtime
patch_enabled none r = (none, r)
patch_enabled (some (bool_value b)) r = (none, record r { enabled = b })
patch_enabled (some _) r = (some enabled_not_boolean, r)

pub data GivenTunables : Type 0 where
  absent not_object : GivenTunables
  object : List (Text × Tunable) → GivenTunables

abbrev pub patch_given : GivenTunables → Runtime → Option Refusal × Runtime
patch_given absent r = (none, r)
patch_given not_object r = (some tunables_not_object, r)
patch_given (object values) r = patch_tunables values r

abbrev pub after_enabled : GivenTunables → Option Refusal × Runtime → Option Refusal × Runtime
after_enabled given (some refusal, r) = (some refusal, r)
after_enabled given (none, r) = patch_given given r

pub record Patch : Type 0 where
  pub given_enabled : Option Tunable
  pub given_tunables : GivenTunables

unfoldable pub patch_runtime : Patch → Runtime → Option Refusal × Runtime
unfolding patch_tunables
patch_runtime p r = after_enabled p.given_tunables (patch_enabled p.given_enabled r)

pub record Runtimes : Type 0 where
  pub running : List Runtime
  pub stored : List Runtime

abbrev pub save_patched : Option Refusal × Runtime → List Runtime → List Runtime
save_patched (some refusal, r) saved = saved
save_patched (none, r) saved = save_detector_settings r saved

-- The runtime of the detector is changed in place, also by a patch that is refused on the way.
unfoldable pub patch_in : Text → Patch → List Runtime → List Runtime → Option Refusal × Runtimes
unfolding patch_runtime save_detector_settings
patch_in detector_id p [] saved = (some not_found, record { running = []; stored = saved })
patch_in detector_id p (r ∷ rs) saved =
    let rest : Option Refusal × Runtimes = patch_in detector_id p rs saved in
    if text_eq r.detector detector_id
    then (
      (patch_runtime p r).0,
      record {
        running = (patch_runtime p r).1 ∷ rs;
        stored = save_patched (patch_runtime p r) saved;
      },
    )
    else (rest.0, record { running = r ∷ rest.1.running; stored = rest.1.stored })

unfoldable pub patch_detector : Text → Patch → Engine → Option Refusal × Engine
unfolding patch_in
patch_detector detector_id p e =
    let patched : Option Refusal × Runtimes = patch_in detector_id p e.runtimes e.saved in
    (patched.0, record e { runtimes = patched.1.running; saved = patched.1.stored })
