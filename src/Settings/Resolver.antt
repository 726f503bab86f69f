-- ===== src/Settings/Resolver.antt =====
-- internal/setting/resolve.go, `Resolver`: every setting that is asked for, under one chain of scopes.
use mathlib.Core.List.{List, [], ◌∷◌}
use mathlib.Core.Option.{Option, none, some}
use temporal_agents.Prelude.{Text, Result, ok, err, ◌>>=◌}
use temporal_agents.Settings.Scoped.{StoredRecord, chain}
use temporal_agents.Settings.Catalogue.{
  Spec, specs, spec_for, keys_of, Resolution, SettingError, not_configured, unknown_key, not_read,
  resolve,
}

-- `Reader.Current`: the newest records of the keys at the scopes, or why they could not be read.
abbrev pub Reader : Type 0
Reader = List Text → List Text → Result Text (List StoredRecord)

abbrev pub spec_or : Text → Option Spec → Result SettingError Spec
spec_or key none = err (unknown_key key)
spec_or key (some spec) = ok spec

-- The specifications of the keys, in their order.
unfoldable pub specs_of : List Text → Result SettingError (List Spec)
unfolding spec_for
specs_of [] = ok []
specs_of (key ∷ keys) = do spec ← spec_or key (spec_for key); rest ← specs_of keys; ok (spec ∷ rest)

-- A caller without keys asks for all of them, and one without a place for the installation's values.
unfoldable pub asked_keys : List Text → List Text
unfolding keys_of
asked_keys [] = keys_of specs
asked_keys (key ∷ keys) = key ∷ keys

unfoldable pub asked_scopes : List Text → List Text
unfolding chain
asked_scopes [] = chain [] []
asked_scopes (scope ∷ scopes) = scope ∷ scopes

abbrev pub or_not_read : Result Text (List StoredRecord) → Result SettingError (List StoredRecord)
or_not_read (ok records) = ok records
or_not_read (err cause) = err (not_read cause)

module _ (hash : Text → Text) where
  unfoldable pub resolve_each :
      List Spec → List Text → List StoredRecord → Result SettingError Resolution
  unfolding resolve
  resolve_each [] scopes records = ok []
  resolve_each (spec ∷ rest) scopes records = do
    value ← resolve hash spec scopes records
    values ← resolve_each rest scopes records
    ok (value ∷ values)

  -- `Resolver.Resolve`.
  unfoldable pub resolver_resolve :
      Option Reader → (keys scopes : List Text) → Result SettingError Resolution
  unfolding specs_of asked_keys asked_scopes resolve_each
  resolver_resolve none keys scopes = err not_configured
  resolver_resolve (some reader) keys scopes = do
    wanted ← specs_of (asked_keys keys)
    records ← or_not_read (reader (asked_keys keys) (asked_scopes scopes))
    resolve_each wanted (asked_scopes scopes) records

  -- `Resolver.Settings`.
  unfoldable pub settings : Option Reader → Result SettingError Resolution
  unfolding resolver_resolve
  settings reader = resolver_resolve reader [] []
