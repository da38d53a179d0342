-- ===== src/Examples/Members.antt =====
-- The theorems on memberships and permissions at concrete stores.
use all_in_one_v2_api.Base.{
  same, any, ◌≡◌, refl, ℕ, ◌≤◌, true, some, [], ◌∷◌, arith, find, find_first, state_of,
}
use all_in_one_v2_api.Tenants.{
  TenantRole, tenant_role, Registry, Acting, count_owners, update_role, remove,
}
use all_in_one_v2_api.Tenants.Owners.{remove_keeps_owner, protected_from_managers}
use all_in_one_v2_api.Base.{Table}
use all_in_one_v2_api.Tenants.{is_member, Membership}
use all_in_one_v2_api.Tenants.Permissions.{
  Permission, permission, require_permission, tenant_role_permissions, user_needs_active_membership,
}

abbrev two_owners : Registry
two_owners = record {
  memberships =
      (1, record { tenant_id = 1; user_id = 21; role = TenantRole.owner; active = true })
      ∷ (2, record { tenant_id = 1; user_id = 22; role = TenantRole.owner; active = true })
      ∷ [];
  accounts = [];
  log = [];
  next_id = 100;
}

abbrev an_owner : Acting
an_owner = record { role = TenantRole.owner; log_up = true }

abbrev a_manager : Acting
a_manager = record { role = TenantRole.admin_manager; log_up = true }

remove_keeps_owner_example :
    1 ≤ count_owners 1 (state_of (remove an_owner 1 2 two_owners)).memberships
unfolding find count_owners
remove_keeps_owner_example =
    remove_keeps_owner an_owner 1 2 two_owners 1 (refl, (refl, tt)) (omega arith)

protected_from_managers_example :
    (find 2 (state_of (update_role a_manager 1 2 TenantRole.admin two_owners)).memberships
      ≡ some (record { tenant_id = 1; user_id = 22; role = TenantRole.owner; active = true }))
    × (find 2 (state_of (remove a_manager 1 2 two_owners)).memberships
        ≡ some (record { tenant_id = 1; user_id = 22; role = TenantRole.owner; active = true }))
unfolding find
protected_from_managers_example =
    protected_from_managers a_manager 1 2 TenantRole.admin two_owners 2
      (record { tenant_id = 1; user_id = 22; role = TenantRole.owner; active = true }) refl refl
      refl

abbrev members : Table Membership
members = (2, record { tenant_id = 1; user_id = 22; role = TenantRole.seller; active = true }) ∷ []

user_needs_active_membership_example :
    (store : ℕ) × (k : ℕ) × (m : Membership) × (some 1 ≡ some store)
    × (find_first (is_member store 22) members ≡ some (k, m))
    × (m.active ≡ true)
    × (any (same Permission.orders_write) (tenant_role_permissions m.role) ≡ true)
unfolding require_permission find_first
user_needs_active_membership_example =
    user_needs_active_membership Permission.orders_write 22 (some 1) members refl
