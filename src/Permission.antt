-- ===== src/Permission.antt =====
-- internal/domain/permission.go: what a session may do, a text of a fixed vocabulary.
use my_pol_go_backend.Prelude.{String, Bool, ◌||◌, Option, none, some, ◌==◌, if◌then◌else◌, is_some}

abbrev pub Permission : Type 0
Permission = String

abbrev pub permission_view : Permission
permission_view = "view"

abbrev pub permission_comment : Permission
permission_comment = "comment"

abbrev pub permission_edit : Permission
permission_edit = "edit"

abbrev pub permission_owner : Permission
permission_owner = "owner"

-- `none` is the error `ErrInvalidPermission`.
unfoldable pub parse_permission : String → Option Permission
parse_permission value =
    if value == permission_view
    then some permission_view
    else if value == permission_comment
    then some permission_comment
    else if value == permission_edit
    then some permission_edit
    else if value == permission_owner
    then some permission_owner
    else none

unfoldable pub valid : Permission → Bool
unfolding parse_permission
valid p = is_some (parse_permission p)

unfoldable pub can_draw : Permission → Bool
can_draw p = p == permission_edit || p == permission_owner
