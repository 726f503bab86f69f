-- ===== src/Settings/Examples.antt =====
-- Stored settings at which the theorems are applied.
use mathlib.Core.Path.{◌≡◌, refl, sym, ap, ◌∙◌}
use mathlib.Core.Logic.{◌≢◌}
use mathlib.Core.Bool.{true, false}
use mathlib.Core.List.{List, Memᴰ, [], ◌∷◌, ◌++◌}
use native.Mathlib.Omega.{arith}
use temporal_agents.Prelude.{Text, same, lit, ok, text_discrete}
use temporal_agents.Settings.Scoped.{StoredRecord, chain, global_scope, factory_scope}
use temporal_agents.Settings.Catalogue.{Spec, Value, steering_enabled, format, resolve}
use temporal_agents.Settings.Winning.{StoresNothing, resolve-format, resolve-shipped}

abbrev steering_spec : Spec
steering_spec = record { key = steering_enabled; factory = false }

-- Steering is switched on for one directory, and off everywhere else.
abbrev stored_on : StoredRecord
stored_on = record {
  key = steering_enabled;
  scope = lit "directory:/repo";
  version = 3;
  text = lit "true";
  hash = lit "h";
}

-- Another setting has a value at the same directory.
abbrev stored_other : StoredRecord
stored_other = record {
  key = lit "other";
  scope = lit "directory:/repo";
  version = 5;
  text = lit "false";
  hash = lit "o";
}

abbrev stored_global : StoredRecord
stored_global = record {
  key = steering_enabled;
  scope = global_scope;
  version = 8;
  text = lit "false";
  hash = lit "g";
}

abbrev stored_before : List StoredRecord
stored_before = stored_other ∷ stored_global ∷ []

abbrev stored : List StoredRecord
stored = stored_before ++ stored_on ∷ []

places :
    chain (lit "/repo/sub") (lit "/repo")
    ≡ lit "directory:/repo/sub" ∷ lit "directory:/repo" ∷ global_scope ∷ factory_scope ∷ []
unfolding chain text_discrete
places = refl

differs : (a b : Text) → same a b ≡ false → a ≢ b
differs a b h e = ground arith

at_one : {t u : Text} → Memᴰ t (u ∷ []) → t ≡ u
at_one (Memᴰ.head e) = e
at_one (Memᴰ.tail m) = elim m [ ]

nothing_below : StoresNothing stored steering_enabled (lit "directory:/repo/sub" ∷ [])
unfolding text_discrete
nothing_below r t (Memᴰ.head e) n k s =
    differs (lit "other") steering_enabled refl (ap (λ x. x.key) (sym e) ∙ k)
nothing_below r t (Memᴰ.tail (Memᴰ.head e)) n k s =
    differs global_scope (lit "directory:/repo/sub") refl (ap (λ x. x.scope) (sym e) ∙ s ∙ at_one n)
nothing_below r t (Memᴰ.tail (Memᴰ.tail (Memᴰ.head e))) n k s =
    differs (lit "directory:/repo") (lit "directory:/repo/sub") refl
      (ap (λ x. x.scope) (sym e) ∙ s ∙ at_one n)
nothing_below r t (Memᴰ.tail (Memᴰ.tail (Memᴰ.tail m))) n k s = elim m [ ]

nothing_before : StoresNothing stored_before steering_enabled (lit "directory:/repo" ∷ [])
unfolding text_discrete
nothing_before r t (Memᴰ.head e) n k s =
    differs (lit "other") steering_enabled refl (ap (λ x. x.key) (sym e) ∙ k)
nothing_before r t (Memᴰ.tail (Memᴰ.head e)) n k s =
    differs global_scope (lit "directory:/repo") refl (ap (λ x. x.scope) (sym e) ∙ s ∙ at_one n)
nothing_before r t (Memᴰ.tail (Memᴰ.tail m)) n k s = elim m [ ]

as_saved : lit "true" ≡ format true
unfolding format
as_saved = refl

resolve-format_example :
    (v : Value) × (resolve
        (λ text. text)
        steering_spec
        ((lit "directory:/repo/sub" ∷ []) ++ lit "directory:/repo" ∷ global_scope ∷ [])
        stored
      ≡ ok v)
    × (v.enabled ≡ true)
    × (v.scope ≡ lit "directory:/repo")
    × (v.version ≡ 3)
resolve-format_example =
    resolve-format (λ text. text) steering_spec (lit "directory:/repo/sub" ∷ []) (global_scope ∷ [])
      (lit "directory:/repo") stored_before [] stored_on true nothing_below nothing_before refl refl
      as_saved

resolve-shipped_example :
    (v : Value) × (resolve (λ text. text) steering_spec (lit "directory:/repo/sub" ∷ []) stored
      ≡ ok v)
    × (v.enabled ≡ false)
    × (v.scope ≡ factory_scope)
    × (v.version ≡ 0)
resolve-shipped_example =
    resolve-shipped (λ text. text) steering_spec (lit "directory:/repo/sub" ∷ []) stored
      nothing_below
