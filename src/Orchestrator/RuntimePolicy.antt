-- ===== src/Orchestrator/RuntimePolicy.antt =====
-- internal/orchestrator/runtime_policy.go: the configuration of an agent is made secure or refused.
-- A configuration is a JSON object, whose copy through encoding/json is itself; numbers, arrays and
-- null are held by their text. `strings.ToLower` is a parameter.
pub mod Paths
pub mod Secure
use heimdall.Base.{
  String, Bool, true, false, ◌||◌, Option, none, some, List, [], ◌∷◌, ◌==◌, if◌then◌else◌,
}
use heimdall.Base.Text.{trim_space}
use heimdall.Base.Result.{Result, ok, err, ◌>>=◌}

mutual
  pub data Json : Type 0 where
    bool : Bool → Json
    str : String → Json
    other : String → Json
    object : Fields → Json

  pub data Fields : Type 0 where
    empty : Fields
    field : String → Json → Fields → Fields

pub data Error : Type 0 where
  not_an_object not_a_boolean not_a_string mode_not_allowed workspace_only_false bind_not_local :
      Error

-- `m[k]`
unfoldable pub get_field : String → Fields → Option Json
get_field k empty = none
get_field k (field j v m) = if j == k then some v else get_field k m

-- `m[k] = v`
unfoldable pub put_field : String → Json → Fields → Fields
put_field k v empty = field k v empty
put_field k v (field j w m) =
    let rest = put_field k v m in if j == k then field j v m else field j w rest

abbrev pub as_object : Json → Result Error Fields
as_object (object m) = ok m
as_object _ = err not_an_object

abbrev pub walk_on : (Json → Result Error (Option Json)) → Option Json → Result Error (Option Json)
walk_on next none = ok none
walk_on next (some v) = next v

-- The loop of `nestedGet`; a path is a literal of the source, and never empty.
unfoldable pub walk : List String → Json → Result Error (Option Json)
walk [] v = ok (some v)
walk (part ∷ path) v = let next = walk path in as_object v >>= λ m. walk_on next (get_field part m)

unfoldable pub nested_get : Fields → List String → Result Error (Option Json)
nested_get root path = walk path (object root)

-- The map that `nestedSet` goes on with.
abbrev pub fields_of : Option Json → Fields
fields_of (some (object m)) = m
fields_of _ = empty

unfoldable pub nested_set : Fields → Json → List String → Fields
unfolding get_field put_field
nested_set root value [] = root
nested_set root value (part ∷ []) = put_field part value root
nested_set root value (part ∷ next ∷ path) =
    put_field part (object (nested_set (fields_of (get_field part root)) value (next ∷ path))) root

abbrev pub mode_path : List String
mode_path = "agents" ∷ "defaults" ∷ "sandbox" ∷ "mode" ∷ []

abbrev pub exec_path : List String
exec_path = "tools" ∷ "exec" ∷ "workspaceOnly" ∷ []

abbrev pub patch_path : List String
patch_path = "tools" ∷ "exec" ∷ "applyPatch" ∷ "workspaceOnly" ∷ []

abbrev pub bind_path : List String
bind_path = "gateway" ∷ "bind" ∷ []

-- A boolean that has to be true, and is set to true where it is missing.
abbrev pub true_or_set : Fields → List String → Option Json → Result Error Fields
true_or_set root path none = ok (nested_set root (bool true) path)
true_or_set root path (some (bool true)) = ok root
true_or_set root path (some (bool false)) = err workspace_only_false
true_or_set root path (some _) = err not_a_boolean

unfoldable pub enforce_true : List String → Fields → Result Error Fields
enforce_true path root = nested_get root path >>= true_or_set root path

-- A text that has to pass a test, and is set where it is missing.
abbrev pub text_or_set :
    Fields → List String → String → Error → (String → Bool) → Option Json → Result Error Fields
text_or_set root path default e test none = ok (nested_set root (str default) path)
text_or_set root path default e test (some (str s)) = if test s then ok root else err e
text_or_set root path default e test (some _) = err not_a_string

unfoldable pub enforce_text :
    List String → String → Error → (String → Bool) → Fields → Result Error Fields
enforce_text path default e test root =
    nested_get root path >>= text_or_set root path default e test

module _ (to_lower : String → String) where
  unfoldable pub is_allowed_mode : String → Bool
  is_allowed_mode s = let mode = to_lower (trim_space s) in mode == "non-main" || mode == "all"

  unfoldable pub is_local : String → Bool
  is_local s =
      let bind = to_lower (trim_space s) in
      bind == "loopback" || bind == "localhost" || bind == "127.0.0.1" || bind == "::1"

  -- `cloneConfigMap`, of nil too.
  abbrev pub clone : Option Fields → Fields
  clone none = empty
  clone (some m) = m

  unfoldable pub enforce_runtime_policy : Option Fields → Result Error Fields
  unfolding enforce_true enforce_text
  enforce_runtime_policy config =
      enforce_text mode_path "non-main" mode_not_allowed is_allowed_mode (clone config) >>= λ moded.
      enforce_true exec_path moded >>= λ executes. enforce_true patch_path executes >>= λ patches.
      enforce_text bind_path "loopback" bind_not_local is_local patches
