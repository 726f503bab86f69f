-- ===== src/Settings/Scoped.antt =====
-- internal/scoped: the chain of scopes of a place, and the stored value that wins.
use Prim.Native.Nat.{ℕ}
use mathlib.Core.Bool.{Bool, true, false, not, ◌&&◌}
use mathlib.Core.List.{List, [], ◌∷◌, ◌++◌}
use mathlib.Core.Option.{Option, none, some}
use temporal_agents.Prelude.{Text, lit, same, if◌then◌else◌, has_prefix}

-- `GlobalScope` and `FactoryScope`.
abbrev pub global_scope : Text
global_scope = lit "global"

abbrev pub factory_scope : Text
factory_scope = lit "factory"

abbrev pub directory_scope_prefix : Text
directory_scope_prefix = lit "directory:"

-- `DirectoryScope`.
unfoldable pub directory_scope : Text → Text
directory_scope [] = []
directory_scope (c ∷ directory) = directory_scope_prefix ++ (c ∷ directory)

-- `Scope.Kind`.
unfoldable pub scope_kind : Text → Text
unfolding has_prefix
scope_kind s =
    if same s global_scope
    then lit "global"
    else if same s factory_scope
    then lit "factory"
    else if has_prefix directory_scope_prefix s
    then lit "directory"
    else lit "unknown"

abbrev pub is_empty : Text → Bool
is_empty [] = true
is_empty (c ∷ s) = false

-- `Chain`.
unfoldable pub chain : Text → Text → List Text
unfolding directory_scope
chain directory repository =
    (if not (is_empty directory) then directory_scope directory ∷ [] else [])
    ++ ((if not (is_empty repository) && not (same repository directory)
          then directory_scope repository ∷ []
          else [])
        ++ global_scope ∷ factory_scope ∷ [])

-- `Record`, less who saved it.
pub record StoredRecord : Type 0 where
  pub key : Text
  pub scope : Text
  pub version : ℕ
  pub text : Text
  pub hash : Text

-- The inner loop of `Winner`.
unfoldable pub stored_at : List StoredRecord → Text → Text → Option StoredRecord
stored_at [] key scope = none
stored_at (r ∷ records) key scope =
    let rest = stored_at records key scope in
    if same r.key key && same r.scope scope then some r else rest

-- `Winner`.
unfoldable pub winner : List StoredRecord → Text → List Text → Option StoredRecord
unfolding stored_at
winner records key [] = none
winner records key (scope ∷ scopes) = elim (stored_at records key scope) [
  | some r ↦ some r
  | none ↦ winner records key scopes
]
