-- ===== src/Core/Roles/Rows.antt =====
-- The roles of one user in a meeting: `add_roles` and `remove_roles` of voteit/core/models.py.
use voteit.Prelude.{ℕ, ◌&&◌, not, Option, none, some, List, [], if◌then◌else◌}
use voteit.Core.Roles.{Role, role_eq, requires, valid_roles, add, remove, is_empty}

-- `MeetingRoles` of a user, none without a row
abbrev pub Row : Type 0
Row = Option (List Role)

abbrev pub assigned_of : Row → List Role
assigned_of none = []
assigned_of (some assigned) = assigned

-- Requirements are two levels deep.
abbrev pub depth : ℕ
depth = 2

-- `meeting.add_roles`: the row is made if there is none. Roles are valid by their type, so that
-- the case of an exception keeps the row.
unfoldable pub add_roles : List Role → Row → Row
unfolding add
add_roles roles row = elim (add valid_roles requires depth (assigned_of row) roles) [
  | none ↦ row
  | some after ↦ some after
]

-- `meeting.remove_roles`: a row that is left empty is deleted
unfoldable pub remove_roles : List Role → Row → Row
unfolding remove
remove_roles roles none = none
remove_roles roles (some assigned) = elim (remove valid_roles requires assigned roles) [
  | none ↦ some assigned
  | some after ↦ if is_empty after && not (is_empty assigned) then none else some after
]
