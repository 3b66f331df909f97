-- ===== src/ExecutionScope.antt =====
-- hlinor_registry/execution_scope.py: the project and workspace that an action is bound to.
pub mod Identity
use hlinor_agent_registry.Prelude.{
  Bool, true, not, if◌then◌else◌, Text, codes, text_eq, strip, is_blank, Value, str, bool, Fields,
  end, field, Result, ok, err, ◌>>=◌,
}

pub data ScopeError : Type 0 where
  not_filled outer_whitespace : Text → ScopeError

pub record ExecutionScope : Type 0 where
  pub project_id : Text
  pub workspace_id : Text

-- One turn of the loop of `__post_init__`.
unfoldable pub check_id : Text → Value → Result ScopeError Text
check_id name (str s) =
    if is_blank s
    then err (not_filled name)
    else if text_eq s (strip s)
    then ok s
    else err (outer_whitespace name)
check_id name _ = err (not_filled name)

-- `__post_init__`
unfoldable pub new_scope : Value → Value → Result ScopeError ExecutionScope
unfolding check_id
new_scope p w = do
  project_id ← check_id (codes "project_id") p
  workspace_id ← check_id (codes "workspace_id") w
  ok (record { project_id = project_id; workspace_id = workspace_id })

unfoldable pub as_policy_signal : ExecutionScope → Fields
as_policy_signal s =
    field (codes "project_id") (str s.project_id)
      (field (codes "workspace_id") (str s.workspace_id) (field (codes "verified") (bool true) end))
