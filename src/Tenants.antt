-- ===== src/Tenants.antt =====
-- src/modules/tenant/membership.service.ts and membership.repository.ts: who administers a store.
pub mod Owners
pub mod Permissions
use all_in_one_v2_api.Base.{
  ℕ, ◌+◌, ◌==◌, Bool, true, false, not, ◌&&◌, ◌||◌, Option, none, some, List, [], ◌∷◌,
  if◌then◌else◌, Table, find, find_first, insert, update, any_row, any, same, Enum, is_some, leb,
  http, thrown, Handler, pure, ◌>>=◌, ◌>>◌, gets, guard, modify, or_throw, when, attempt, ok, err,
}

pub data TenantRole : Type 0 where
  owner admin_manager admin manager seller editor viewer : TenantRole

abbrev role_place : TenantRole → ℕ
role_place owner = 0
role_place admin_manager = 1
role_place admin = 2
role_place manager = 3
role_place seller = 4
role_place editor = 5
role_place viewer = 6

instance abbrev pub tenant_role : Enum TenantRole
tenant_role = record { place = role_place }

-- TenantMembership
pub record Membership : Type 0 where
  pub tenant_id : ℕ
  pub user_id : ℕ
  pub role : TenantRole
  pub active : Bool  -- status is 'ACTIVE'

-- an entry of the audit log: the membership, and its role before and after
pub record Audit : Type 0 where
  pub membership : ℕ
  pub before : Option TenantRole
  pub after : Option TenantRole

-- the memberships, the accounts by e-mail, and the audit log
pub record Registry : Type 0 where
  pub memberships : Table Membership
  pub accounts : Table ℕ
  pub log : List Audit
  pub next_id : ℕ

-- who acts: the role, whether the audit log can be written, and the id of an account made on the spot
pub record Acting : Type 0 where
  pub role : TenantRole
  pub log_up : Bool

abbrev pub is_owner_role : TenantRole → Bool
is_owner_role role = same role TenantRole.owner

-- ADMIN_MANAGER_ASSIGNABLE_ROLES
abbrev pub admin_manager_assignable_roles : List TenantRole
admin_manager_assignable_roles = TenantRole.admin ∷ []

-- PROTECTED_ROLES
abbrev pub protected_roles : List TenantRole
protected_roles = TenantRole.owner ∷ TenantRole.admin_manager ∷ []

-- `actingRole !== OWNER && !ADMIN_MANAGER_ASSIGNABLE_ROLES.includes(role)`, negated
abbrev pub may_assign : TenantRole → TenantRole → Bool
may_assign acting role = is_owner_role acting || any (same role) admin_manager_assignable_roles

-- `actingRole !== OWNER && PROTECTED_ROLES.includes(membership.role)`, negated
abbrev pub may_change : TenantRole → TenantRole → Bool
may_change acting role = is_owner_role acting || not (any (same role) protected_roles)

abbrev pub member_of : ℕ → Option Membership → Option Membership
member_of tenant none = none
member_of tenant (some m) = if m.tenant_id == tenant then some m else none

-- MembershipRepository.findById
pub find_membership : ℕ → ℕ → Registry → Option Membership
find_membership tenant id r = member_of tenant (find id r.memberships)

abbrev pub is_member : ℕ → ℕ → ℕ → Membership → Bool
is_member tenant user _ m = m.tenant_id == tenant && m.user_id == user

abbrev pub is_owner : ℕ → ℕ → Membership → Bool
is_owner tenant _ m = m.tenant_id == tenant && is_owner_role m.role

-- countByTenantAndRole, for the role OWNER
unfoldable pub count_owners : ℕ → Table Membership → ℕ
count_owners tenant [] = 0
count_owners tenant ((i, m) ∷ t) =
    let rest = count_owners tenant t in if is_owner tenant i m then 1 + rest else rest

-- `delete({ where: { id } })`
pub delete_row : ℕ → Table Membership → Table Membership
delete_row id [] = []
delete_row id ((i, m) ∷ t) = let rest = delete_row id t in if i == id then rest else (i, m) ∷ rest

abbrev pub append_log : Acting → Audit → Handler Registry (Unit {0})
append_log acting entry r =
    if acting.log_up then ok tt (record r { log = entry ∷ r.log }) else err thrown r

-- logAction
unfoldable pub log_action : Acting → Audit → Handler Registry (Unit {0})
log_action acting entry = attempt (append_log acting entry)

-- assertNotLastOwner
pub assert_not_last_owner : ℕ → Handler Registry (Unit {0})
assert_not_last_owner tenant = do
  owners ← gets (λ (r : Registry). count_owners tenant r.memberships)
  guard (not (leb owners 1)) (http 409)

-- createAccountForGrant: an account, and its id
unfoldable pub create_account_for_grant : ℕ → Handler Registry ℕ
create_account_for_grant email r =
    ok r.next_id
      (record r { accounts = insert email r.next_id r.accounts; next_id = r.next_id + 1 })

-- `if (!user)`
abbrev pub account_of : ℕ → Bool → Option ℕ → Handler Registry ℕ
account_of email new_account (some user) = pure user
account_of email true none = create_account_for_grant email
account_of email false none = λ r. err (http 404) r

-- MembershipRepository.create
unfoldable pub create_membership : ℕ → ℕ → TenantRole → Handler Registry ℕ
create_membership tenant user role r =
    let row : Membership = record {
      tenant_id = tenant;
      user_id = user;
      role = role;
      active = true;
    } in
    ok r.next_id
      (record r { memberships = insert r.next_id row r.memberships; next_id = r.next_id + 1 })

-- grant
unfoldable pub grant : Acting → ℕ → ℕ → TenantRole → Bool → Handler Registry (Unit {0})
grant acting tenant email role new_account = do
  guard (may_assign acting.role role) (http 403)
  known ← gets (λ (r : Registry). find email r.accounts)
  user ← account_of email new_account known
  existing ← gets (λ (r : Registry). any_row (is_member tenant user) r.memberships)
  guard (not existing) (http 409)
  membership ← create_membership tenant user role
  log_action acting (record { membership = membership; before = none; after = some role })

abbrev pub set_role : TenantRole → Membership → Membership
set_role role m = record m { role = role }

-- updateRole
pub update_role : Acting → ℕ → ℕ → TenantRole → Handler Registry (Unit {0})
unfolding find_membership
update_role acting tenant id role = do
  membership ← or_throw (← gets (find_membership tenant id)) (http 404)
  guard (may_change acting.role membership.role) (http 403)
  guard (may_assign acting.role role) (http 403)
  when (is_owner_role membership.role && not (is_owner_role role)) (assert_not_last_owner tenant)
  modify λ r. record r { memberships = update id (set_role role) r.memberships }
  log_action acting (record { membership = id; before = some membership.role; after = some role })

-- remove
pub remove : Acting → ℕ → ℕ → Handler Registry (Unit {0})
unfolding find_membership
remove acting tenant id = do
  membership ← or_throw (← gets (find_membership tenant id)) (http 404)
  guard (may_change acting.role membership.role) (http 403)
  when (is_owner_role membership.role) (assert_not_last_owner tenant)
  modify λ r. record r { memberships = delete_row id r.memberships }
  log_action acting (record { membership = id; before = some membership.role; after = none })
