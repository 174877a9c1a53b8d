-- ===== src/Orchestrator/Examples.antt =====
-- The runtime policy at configurations with some of its keys.
use heimdall.Base.{String, ◌≡◌, refl, true, false, some}
use heimdall.Base.Text.{trim_space}
use heimdall.Base.Result.{ok, err}
use heimdall.Orchestrator.RuntimePolicy.{
  Fields, bool, str, object, empty, field, workspace_only_false, enforce_runtime_policy,
  enforce_text, enforce_true, nested_get, nested_set, walk, get_field, put_field, is_allowed_mode,
  is_local,
}
use heimdall.Orchestrator.RuntimePolicy.Secure.{
  IsSecure, KeepsLower, enforce_runtime_policy-IsSecure, enforce_runtime_policy-again,
}

abbrev same_case : String → String
same_case s = s

abbrev lower : KeepsLower same_case
lower = record { mode = refl; bind = refl }

-- An agent that asks for the mode "all" and for nothing else.
abbrev modest : Fields
modest =
    field "agents"
      (object (
        field "defaults" (object (field "sandbox" (object (field "mode" (str "all") empty)) empty))
          empty))
      empty

abbrev filled : Fields
filled =
    field "agents"
      (object (
        field "defaults" (object (field "sandbox" (object (field "mode" (str "all") empty)) empty))
          empty))
      (field "tools"
        (object (
          field "exec"
            (object (
              field "workspaceOnly" (bool true)
                (field "applyPatch" (object (field "workspaceOnly" (bool true) empty)) empty)))
            empty))
        (field "gateway" (object (field "bind" (str "loopback") empty)) empty))

fills : enforce_runtime_policy same_case (some modest) ≡ ok filled
unfolding enforce_runtime_policy enforce_text enforce_true nested_get nested_set walk get_field
    put_field is_allowed_mode is_local trim_space
fills = refl

refuses :
    enforce_runtime_policy same_case (
      some (
        field "tools"
          (object (field "exec" (object (field "workspaceOnly" (bool false) empty)) empty))
          empty))
    ≡ err workspace_only_false
unfolding enforce_runtime_policy enforce_text enforce_true nested_get nested_set walk get_field
    put_field is_allowed_mode is_local trim_space
refuses = refl

enforce_runtime_policy-IsSecure_example : IsSecure same_case filled
enforce_runtime_policy-IsSecure_example =
    enforce_runtime_policy-IsSecure same_case (some modest) filled lower fills

enforce_runtime_policy-again_example : enforce_runtime_policy same_case (some filled) ≡ ok filled
enforce_runtime_policy-again_example =
    enforce_runtime_policy-again same_case (some modest) filled lower fills
