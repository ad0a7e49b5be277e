-- ===== src/Permissions/Lattice.antt =====
-- The roles form a chain.
use win_os_layer.Common.{ℕ, ◌≤◌, ◌≡◌, refl, true, arith}
use win_os_layer.Permissions.{
  Permission, Role, viewer, operator, automator, administrator, is_administrator, role_permissions,
  has_permission,
}

-- The order in which the roles are declared, from the least to the most trusted.
abbrev pub rank : Role → ℕ
rank viewer = 0
rank operator = 1
rank automator = 2
rank administrator = 3

-- A more trusted role holds every permission of a less trusted one.
pub has_permission_mono :
    (low high : Role) (p : Permission)
    → rank low ≤ rank high
    → has_permission low p ≡ true
    → has_permission high p ≡ true
unfolding has_permission role_permissions
has_permission_mono low high p h = ground arith

-- `Permission.ADMIN` is held by the administrator role alone.
pub admin_only : (role : Role) → has_permission role Permission.admin ≡ is_administrator role
unfolding has_permission role_permissions
admin_only viewer = refl
admin_only operator = refl
admin_only automator = refl
admin_only administrator = refl
