-- ===== src/Permissions.antt =====
-- windows_os_api/core/permissions/model.py: a set of permissions is its characteristic function.
pub mod Lattice
mod Tests
use win_os_layer.Common.{Bool, true, false, if◌then◌else◌}

pub data Permission : Type 0 where
  system_read filesystem_read filesystem_write process_read process_execute : Permission
  ui_read ui_control network_read service_control admin registry_read : Permission
  registry_write terminal_execute adapter_use adapter_manage : Permission

pub data Role : Type 0 where
  viewer operator automator administrator : Role

abbrev pub PermissionSet : Type 0
PermissionSet = Permission → Bool

abbrev pub is_administrator : Role → Bool
is_administrator administrator = true
is_administrator _ = false

-- `ROLE_PERMISSIONS`
unfoldable pub role_permissions : Role → PermissionSet
role_permissions viewer system_read = true
role_permissions viewer filesystem_read = true
role_permissions viewer process_read = true
role_permissions viewer ui_read = true
role_permissions viewer network_read = true
role_permissions viewer registry_read = true
role_permissions viewer _ = false
role_permissions operator system_read = true
role_permissions operator filesystem_read = true
role_permissions operator filesystem_write = true
role_permissions operator process_read = true
role_permissions operator process_execute = true
role_permissions operator ui_read = true
role_permissions operator ui_control = true
role_permissions operator network_read = true
role_permissions operator service_control = true
role_permissions operator registry_read = true
role_permissions operator adapter_use = true
role_permissions operator _ = false
role_permissions automator admin = false
role_permissions automator _ = true
role_permissions administrator _ = true

unfoldable pub has_permission : Role → Permission → Bool
has_permission role permission =
    if is_administrator role then true else role_permissions role permission
