-- ===== src/Security/Permissions.antt =====
-- security/permissions.go: ListPermissionManager. A permission and a role are texts, as in the source;
-- a map to Booleans that are always true is an association list of them.
pub mod Status
use tracklogic_agent.Common.{
  ℕ, Bool, true, false, ◌&&◌, ◌||◌, Text, codes, text_eq, List, [], ◌∷◌, Option, none, some,
  is_some, if◌then◌else◌, Dict, lookup, insert, erase, byte_len, ltb, take,
}

pub record ListPermissionManager : Type 0 where
  pub allow_list : Dict Bool
  pub deny_list : Dict Bool

pub data Refusal : Type 0 where
  explicitly_denied not_granted : Refusal

abbrev pub new_permission_manager : ListPermissionManager
new_permission_manager = record { allow_list = []; deny_list = [] }

abbrev pub holds : Option Bool → Bool
holds none = false
holds (some b) = b

-- The body of the loops of Allow and Deny.
unfoldable pub allow_one : Text → ListPermissionManager → ListPermissionManager
allow_one p m = record { allow_list = insert p true m.allow_list; deny_list = erase p m.deny_list }

unfoldable pub deny_one : Text → ListPermissionManager → ListPermissionManager
deny_one p m = record { allow_list = erase p m.allow_list; deny_list = insert p true m.deny_list }

unfoldable pub allow_all : List Text → ListPermissionManager → ListPermissionManager
unfolding allow_one
allow_all [] m = m
allow_all (p ∷ ps) m = allow_all ps (allow_one p m)

unfoldable pub deny_all : List Text → ListPermissionManager → ListPermissionManager
unfolding deny_one
deny_all [] m = m
deny_all (p ∷ ps) m = deny_all ps (deny_one p m)

-- Check
unfoldable pub check : Text → ListPermissionManager → Option Refusal
check p m =
    if holds (lookup p m.deny_list)
    then some explicitly_denied
    else if holds (lookup p m.allow_list)
    then none
    else some not_granted

-- IsAllowed
unfoldable pub is_granted : Text → ListPermissionManager → Bool
unfolding check
is_granted p m = elim (check p m) [ none ↦ true | some r ↦ false ]

-- roleDefaults; a role that is not listed has none.
unfoldable pub role_defaults : Text → List Text
role_defaults role =
    if text_eq role (codes "admin")
    then codes "read_file"
      ∷ codes "write_file"
      ∷ codes "execute_command"
      ∷ codes "network_access"
      ∷ codes "read_database"
      ∷ codes "write_database"
      ∷ codes "send_email"
      ∷ []
    else if text_eq role (codes "user")
    then codes "read_file"
      ∷ codes "write_file"
      ∷ codes "network_access"
      ∷ codes "read_database"
      ∷ []
    else if text_eq role (codes "guest")
    then codes "read_file" ∷ []
    else []

unfoldable pub grant_all : List Text → Dict Bool → Dict Bool
grant_all [] granted = granted
grant_all (p ∷ ps) granted = grant_all ps (insert p true granted)

unfoldable pub set_role : Text → ListPermissionManager → ListPermissionManager
unfolding role_defaults grant_all
set_role role m = record { allow_list = grant_all (role_defaults role) []; deny_list = [] }

-- RequiredPermission; the bytes of the prefix `mcp_` are its code points.
unfoldable pub required_permission : Text → Option Text
required_permission tool_name =
    if text_eq tool_name (codes "read_file") || text_eq tool_name (codes "list_dir")
    then some (codes "read_file")
    else if text_eq tool_name (codes "write_file")
    then some (codes "write_file")
    else if text_eq tool_name (codes "http_get")
    then some (codes "network_access")
    else if ltb 4 (byte_len tool_name) && text_eq (take 4 tool_name) (codes "mcp_")
    then some (codes "network_access")
    else none
