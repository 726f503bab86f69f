-- ===== src/Settings/Winning.antt =====
-- Which stored value a setting is resolved to.
use mathlib.Core.Path.{◌≡◌, refl, ap, ◌∙◌}
use mathlib.Core.Logic.{◌≢◌}
use mathlib.Core.Bool.{Bool, true, false, ◌&&◌}
use mathlib.Core.List.{List, Memᴰ, [], ◌∷◌, ◌++◌}
use mathlib.Core.Option.{none, some}
use native.Mathlib.Omega.{arith}
use temporal_agents.Prelude.{Text, same, ok, trim_space, text_discrete}
use temporal_agents.Settings.Scoped.{StoredRecord, stored_at, winner, factory_scope}
use temporal_agents.Settings.Catalogue.{
  Spec, Value, format, parse, parse_trimmed, read_stored, resolve_from, resolve, shipped,
}

-- None of the records is one of this key at one of these scopes.
abbrev pub StoresNothing : List StoredRecord → Text → List Text → Type 0
StoresNothing records key scopes =
    (r : StoredRecord) (scope : Text)
    → Memᴰ r records
    → Memᴰ scope scopes
    → r.key ≡ key
    → r.scope ≢ scope

same_refl : (a : Text) → same a a ≡ true
same_refl a = ground arith

-- The test of one record.
no_match :
    (key scope : Text) (r : StoredRecord)
    → (r.key ≡ key → r.scope ≢ scope)
    → (same r.key key && same r.scope scope) ≡ false
no_match key scope r apart = ground arith

stored_at-none :
    (records : List StoredRecord) (key scope : Text)
    → StoresNothing records key (scope ∷ [])
    → stored_at records key scope ≡ none
unfolding stored_at
stored_at-none [] key scope nothing = refl
stored_at-none (r ∷ records) key scope nothing =
    rw (no_match key scope r (nothing r scope (Memᴰ.head refl) (Memᴰ.head refl)))
      (stored_at-none records key scope (λ x t m. nothing x t (Memᴰ.tail m)))

stored_at-first :
    (earlier later : List StoredRecord) (r : StoredRecord) (key scope : Text)
    → StoresNothing earlier key (scope ∷ [])
    → r.key ≡ key
    → r.scope ≡ scope
    → stored_at (earlier ++ r ∷ later) key scope ≡ some r
unfolding stored_at
stored_at-first [] later r key scope nothing k s =
    rw (ap (λ x. same x key) k ∙ same_refl key, ap (λ x. same x scope) s ∙ same_refl scope) refl
stored_at-first (x ∷ earlier) later r key scope nothing k s =
    rw (no_match key scope x (nothing x scope (Memᴰ.head refl) (Memᴰ.head refl)))
      (stored_at-first earlier later r key scope (λ y t m. nothing y t (Memᴰ.tail m)) k s)

Memᴰ-first : {t u : Text} {ts : List Text} → Memᴰ u (t ∷ []) → Memᴰ u (t ∷ ts)
Memᴰ-first (Memᴰ.head e) = Memᴰ.head e
Memᴰ-first (Memᴰ.tail m) = elim m [ ]

-- The loop finds nothing at these scopes.
abbrev FindsNothing : List StoredRecord → Text → List Text → Type 0
FindsNothing records key [] = Unit {0}
FindsNothing records key (t ∷ ts) = (stored_at records key t ≡ none) × FindsNothing records key ts

stores-FindsNothing :
    (records : List StoredRecord) (key : Text) (scopes : List Text)
    → StoresNothing records key scopes
    → FindsNothing records key scopes
stores-FindsNothing records key [] nothing = tt
stores-FindsNothing records key (t ∷ ts) nothing = (
  stored_at-none records key t (λ r scope m n. nothing r scope m (Memᴰ-first n)),
  stores-FindsNothing records key ts (λ r scope m n. nothing r scope m (Memᴰ.tail n)),
)

winner-first :
    (records : List StoredRecord) (key : Text) (before after : List Text) (scope : Text)
    (r : StoredRecord)
    → FindsNothing records key before
    → stored_at records key scope ≡ some r
    → winner records key (before ++ scope ∷ after) ≡ some r
unfolding winner
winner-first records key [] after scope r nothing h = rw (h, winner) refl
winner-first records key (t ∷ ts) after scope r nothing h =
    rw (nothing.0, winner) (winner-first records key ts after scope r nothing.1 h)

winner-none :
    (records : List StoredRecord) (key : Text) (scopes : List Text)
    → FindsNothing records key scopes
    → winner records key scopes ≡ none
unfolding winner
winner-none records key [] nothing = refl
winner-none records key (t ∷ ts) nothing =
    rw (nothing.0, winner) (winner-none records key ts nothing.1)

parse-format : (on : Bool) → parse (format on) ≡ some on
unfolding parse format parse_trimmed trim_space text_discrete
parse-format true = refl
parse-format false = refl

-- A setting that is saved for a scope is read back as it was saved. Of the records that the store gives, let the first of this setting at that scope be given, and let no record be of this setting at a scope of the chain before it, whatever records of other settings, of other scopes and of later scopes there are: the setting is then resolved to what that record was saved as, at its scope and version.
pub resolve-format :
    (hash : Text → Text) (spec : Spec) (before after : List Text) (scope : Text)
    (earlier later : List StoredRecord) (r : StoredRecord) (on : Bool)
    → StoresNothing (earlier ++ r ∷ later) spec.key before
    → StoresNothing earlier spec.key (scope ∷ [])
    → r.key ≡ spec.key
    → r.scope ≡ scope
    → r.text ≡ format on
    → (v : Value) × (resolve hash spec (before ++ scope ∷ after) (earlier ++ r ∷ later) ≡ ok v)
      × (v.enabled ≡ on)
      × (v.scope ≡ scope)
      × (v.version ≡ r.version)
unfolding resolve resolve_from read_stored
resolve-format hash spec before after scope earlier later r on nothing is_first of_key at_scope
      saved =
    (
      record { key = spec.key; enabled = on; scope = r.scope; version = r.version; hash = r.hash },
      ap (resolve_from hash spec) (
            winner-first (earlier ++ r ∷ later) spec.key before after scope r
              (stores-FindsNothing (earlier ++ r ∷ later) spec.key before nothing)
              (stored_at-first earlier later r spec.key scope is_first of_key at_scope))
          ∙ ap (read_stored hash spec r) (ap parse saved ∙ parse-format on),
      refl,
      at_scope,
      refl,
    )

-- Where no record of the store is one of this setting at a scope of the chain, whatever there is of other settings and scopes, the setting is what the build ships, at the factory's scope and as version 0, and it is never an error.
pub resolve-shipped :
    (hash : Text → Text) (spec : Spec) (scopes : List Text) (records : List StoredRecord)
    → StoresNothing records spec.key scopes
    → (v : Value) × (resolve hash spec scopes records ≡ ok v)
      × (v.enabled ≡ spec.factory)
      × (v.scope ≡ factory_scope)
      × (v.version ≡ 0)
unfolding resolve resolve_from shipped
resolve-shipped hash spec scopes records nothing = (
  shipped hash spec,
  ap (resolve_from hash spec)
      (winner-none records spec.key scopes (stores-FindsNothing records spec.key scopes nothing)),
  refl,
  refl,
  refl,
)
