-- ===== src/Tenants/Permissions.antt =====
-- src/modules/auth/permissions.ts, and requirePermission of src/middleware/auth.middleware.ts.
use all_in_one_v2_api.Base.{
  ℕ, ◌≡◌, ◌≢◌, refl, Bool, true, false, ◌&&◌, ◌||◌, Option, none, some, List, [], ◌∷◌, arith,
  if◌then◌else◌, Table, find_first, any, same, Enum,
}
use all_in_one_v2_api.Tenants.{TenantRole, Membership, is_member}

pub data Permission : Type 0 where
  catalog_read catalog_write catalog_delete orders_read orders_write orders_refund customers_read
        customers_write analytics_read tenant_settings_read tenant_settings_write tenant_staff_read
        tenant_staff_manage platform_manage :
      Permission

abbrev permission_place : Permission → ℕ
permission_place Permission.catalog_read = 0
permission_place Permission.catalog_write = 1
permission_place Permission.catalog_delete = 2
permission_place Permission.orders_read = 3
permission_place Permission.orders_write = 4
permission_place Permission.orders_refund = 5
permission_place Permission.customers_read = 6
permission_place Permission.customers_write = 7
permission_place Permission.analytics_read = 8
permission_place Permission.tenant_settings_read = 9
permission_place Permission.tenant_settings_write = 10
permission_place Permission.tenant_staff_read = 11
permission_place Permission.tenant_staff_manage = 12
permission_place Permission.platform_manage = 13

instance abbrev pub permission : Enum Permission
permission = record { place = permission_place }

pub data UserRole : Type 0 where
  user super_admin developer : UserRole

abbrev pub administration : List Permission
administration =
    Permission.catalog_read ∷ Permission.catalog_write ∷ Permission.catalog_delete
    ∷ Permission.orders_read ∷ Permission.orders_write ∷ Permission.orders_refund
    ∷ Permission.customers_read ∷ Permission.customers_write ∷ Permission.analytics_read
    ∷ Permission.tenant_settings_read ∷ Permission.tenant_settings_write
    ∷ Permission.tenant_staff_read ∷ Permission.tenant_staff_manage ∷ []

-- PLATFORM_ROLE_PERMISSIONS
abbrev pub platform_role_permissions : UserRole → List Permission
platform_role_permissions UserRole.super_admin = Permission.platform_manage ∷ administration
platform_role_permissions UserRole.developer = Permission.platform_manage ∷ administration
platform_role_permissions UserRole.user = []

-- TENANT_ROLE_PERMISSIONS
abbrev pub tenant_role_permissions : TenantRole → List Permission
tenant_role_permissions TenantRole.owner = administration
tenant_role_permissions TenantRole.admin_manager = administration
tenant_role_permissions TenantRole.admin =
    Permission.catalog_read ∷ Permission.catalog_write ∷ Permission.catalog_delete
    ∷ Permission.orders_read ∷ Permission.orders_write ∷ Permission.orders_refund
    ∷ Permission.customers_read ∷ Permission.customers_write ∷ Permission.analytics_read
    ∷ Permission.tenant_settings_read ∷ Permission.tenant_settings_write
    ∷ Permission.tenant_staff_read ∷ []
tenant_role_permissions TenantRole.manager =
    Permission.catalog_read ∷ Permission.catalog_write ∷ Permission.orders_read
    ∷ Permission.orders_write ∷ Permission.customers_read ∷ Permission.customers_write
    ∷ Permission.analytics_read ∷ Permission.tenant_settings_read ∷ []
tenant_role_permissions TenantRole.editor = Permission.catalog_read ∷ Permission.catalog_write ∷ []
tenant_role_permissions TenantRole.seller =
    Permission.catalog_read ∷ Permission.orders_read ∷ Permission.orders_write ∷ []
tenant_role_permissions TenantRole.viewer =
    Permission.catalog_read ∷ Permission.orders_read ∷ Permission.customers_read
    ∷ Permission.analytics_read ∷ Permission.tenant_settings_read ∷ []

-- `membership && membership.status === 'ACTIVE'`, and `tenantPerms.includes(permission)`
abbrev pub membership_grants : Permission → Option (ℕ × Membership) → Bool
membership_grants p none = false
membership_grants p (some (_, m)) = m.active && any (same p) (tenant_role_permissions m.role)

abbrev pub tenant_grants : Permission → ℕ → Option ℕ → Table Membership → Bool
tenant_grants p id none t = false
tenant_grants p id (some tenant) t = membership_grants p (find_first (is_member tenant id) t)

-- requirePermission: `none` is `next()`, otherwise the status of the answer. The user is the role and
-- the id, if the request carries one; the tenant is that of the request.
unfoldable pub require_permission :
    Permission → Option (UserRole × ℕ) → Option ℕ → Table Membership → Option ℕ
require_permission p none tenant t = some 401
require_permission p (some (role, id)) tenant t =
    if any (same p) (platform_role_permissions role) || tenant_grants p id tenant t
    then none
    else some 403

-- The permission platform:manage is passed only by a super admin or a developer: no membership of any
-- role in any store carries it.
pub platform_manage_platform_only :
    (role : UserRole) (id : ℕ) (tenant : Option ℕ) (t : Table Membership)
    → require_permission Permission.platform_manage (some (role, id)) tenant t ≡ none
    → role ≢ UserRole.user
unfolding require_permission
platform_manage_platform_only role id tenant t passed is_user = ground arith

membership_grants_inv :
    (p : Permission) (row : Option (ℕ × Membership))
    → membership_grants p row ≡ true
    → (k : ℕ) × (m : Membership) × (row ≡ some (k, m))
      × (m.active ≡ true)
      × (any (same p) (tenant_role_permissions m.role) ≡ true)
membership_grants_inv p none h = ground arith
membership_grants_inv p (some (k, m)) h = (k, m, refl, ground arith, ground arith)

-- A plain user passes a permission only in the store of the request, by a membership that is ACTIVE and
-- whose role has the permission.
pub user_needs_active_membership :
    (p : Permission) (id : ℕ) (tenant : Option ℕ) (t : Table Membership)
    → require_permission p (some (UserRole.user, id)) tenant t ≡ none
    → (store : ℕ) × (k : ℕ) × (m : Membership) × (tenant ≡ some store)
      × (find_first (is_member store id) t ≡ some (k, m))
      × (m.active ≡ true)
      × (any (same p) (tenant_role_permissions m.role) ≡ true)
unfolding require_permission
user_needs_active_membership p id none t passed = ground arith
user_needs_active_membership p id (some store) t passed =
    let grants : membership_grants p (find_first (is_member store id) t) ≡ true = ground arith in
    let (k, m, row, active, includes) = membership_grants_inv p _ grants in
    (store, k, m, refl, row, active, includes)
