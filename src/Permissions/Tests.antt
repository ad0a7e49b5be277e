-- ===== src/Permissions/Tests.antt =====
-- The chain of roles at two of them.
use win_os_layer.Common.{◌≡◌, refl, false}
use win_os_layer.Permissions.{Permission, operator, role_permissions, has_permission}

operator_has_no_terminal : has_permission operator Permission.terminal_execute ≡ false
unfolding has_permission role_permissions
operator_has_no_terminal = refl
