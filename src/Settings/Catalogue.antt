-- ===== src/Settings/Catalogue.antt =====
-- internal/setting: the governed settings, what is resolved for them, and whether one is on.
use Prim.Native.Nat.{ℕ}
use mathlib.Core.Bool.{Bool, true, false, not, ◌||◌}
use mathlib.Core.List.{List, [], ◌∷◌}
use mathlib.Core.Option.{Option, none, some}
use temporal_agents.Prelude.{Text, lit, same, if◌then◌else◌, trim_space, Result, ok, err}
use temporal_agents.Settings.Scoped.{directory_scope, factory_scope, StoredRecord, winner, is_empty}

-- `KeySteeringEnabled`.
abbrev pub steering_enabled : Text
steering_enabled = lit "steering.enabled"

-- `Spec`, less its purpose.
pub record Spec : Type 0 where
  pub key : Text
  pub factory : Bool

-- `specs`.
abbrev pub specs : List Spec
specs = record { key = steering_enabled; factory = true } ∷ []

unfoldable pub find_spec : List Spec → Text → Option Spec
find_spec [] key = none
find_spec (s ∷ rest) key =
    let later = find_spec rest key in if same s.key key then some s else later

-- `SpecFor`.
unfoldable pub spec_for : Text → Option Spec
unfolding find_spec
spec_for key = find_spec specs key

-- `Keys`.
unfoldable pub keys_of : List Spec → List Text
keys_of [] = []
keys_of (s ∷ rest) = s.key ∷ keys_of rest

-- `Format`.
unfoldable pub format : Bool → Text
format true = lit "true"
format false = lit "false"

-- `Spec.Parse`, which trims first; `none` stands for the error.
unfoldable pub parse_trimmed : Text → Option Bool
parse_trimmed text =
    if same text (lit "true")
    then some true
    else if same text (lit "false")
    then some false
    else none

unfoldable pub parse : Text → Option Bool
unfolding parse_trimmed
parse text = parse_trimmed (trim_space text)

-- `Value`.
pub record Value : Type 0 where
  pub key : Text
  pub enabled : Bool
  pub scope : Text
  pub version : ℕ
  pub hash : Text

-- `Value.Inherited`.
unfoldable pub inherited : Value → Text → Bool
unfolding directory_scope
inherited v directory = not (same v.scope (directory_scope directory)) || is_empty directory

-- `Resolution`, and its method `Value`.
abbrev pub Resolution : Type 0
Resolution = List Value

unfoldable pub value_of : Resolution → Text → Option Value
value_of [] key = none
value_of (v ∷ rest) key = let later = value_of rest key in if same v.key key then some v else later

abbrev pub factory_of : Option Spec → Bool
factory_of none = false
factory_of (some spec) = spec.factory

abbrev pub enabled_or : Option Value → Bool → Bool
enabled_or none other = other
enabled_or (some v) other = v.enabled

-- `Resolution.Enabled`.
unfoldable pub enabled : Resolution → Text → Bool
unfolding value_of spec_for
enabled resolution key = enabled_or (value_of resolution key) (factory_of (spec_for key))

-- The errors of resolution.
pub data SettingError : Type 0 where
  not_configured : SettingError
  unknown_key unreadable : Text → SettingError
  not_read : (cause : Text) → SettingError

-- The library `hash` is SHA-256 in hexadecimal.
module _ (hash : Text → Text) where
  -- `resolve`, where the chain has a stored value.
  unfoldable pub read_stored : Spec → StoredRecord → Option Bool → Result SettingError Value
  read_stored spec r none = err (unreadable spec.key)
  read_stored spec r (some on) =
      ok (record {
        key = spec.key;
        enabled = on;
        scope = r.scope;
        version = r.version;
        hash = r.hash;
      })

  unfoldable pub shipped : Spec → Value
  unfolding format
  shipped spec = record {
    key = spec.key;
    enabled = spec.factory;
    scope = factory_scope;
    version = 0;
    hash = hash (format spec.factory);
  }

  unfoldable pub resolve_from : Spec → Option StoredRecord → Result SettingError Value
  unfolding read_stored shipped parse
  resolve_from spec none = ok (shipped spec)
  resolve_from spec (some r) = read_stored spec r (parse r.text)

  -- `resolve`.
  unfoldable pub resolve : Spec → List Text → List StoredRecord → Result SettingError Value
  unfolding resolve_from winner
  resolve spec scopes records = resolve_from spec (winner records spec.key scopes)
