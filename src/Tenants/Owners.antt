-- ===== src/Tenants/Owners.antt =====
-- A store keeps an owner, and no one grants more than the role allows.
use all_in_one_v2_api.Base.{
  ℕ, ◌+◌, ◌≤◌, ◌≡◌, refl, ◌==◌, ==_iff, true, false, not, ◌&&◌, none, some, [], ◌∷◌, arith,
  if◌then◌else◌, Table, find, update, update_many, IsKeyed, leb, same, state_of, ◌>>=◌, Bool-cases,
  inl, inr, ◌⊎◌, any, find-update,
}
use all_in_one_v2_api.Tenants.{
  TenantRole, tenant_role, Membership, Registry, Acting, protected_roles, count_owners, is_owner,
  is_owner_role, delete_row, set_role, find_membership, update_role, remove, assert_not_last_owner,
  log_action, may_assign, may_change,
}

abbrev owner_unit : ℕ → Membership → ℕ
owner_unit tenant m = if is_owner tenant 0 m then 1 else 0

update-absent :
    (id : ℕ) (role : TenantRole) (t : Table Membership)
    → find id t ≡ none
    → update id (set_role role) t ≡ t
unfolding find update update_many
update-absent id role [] h = refl
update-absent id role ((i, m) ∷ t) h =
    ground (arith, update-absent id role t, ==_iff id i, ==_iff i id)

count_owners-update :
    (tenant id : ℕ) (role : TenantRole) (t : Table Membership) (m : Membership)
    → IsKeyed t
    → find id t ≡ some m
    → count_owners tenant (update id (set_role role) t) + owner_unit tenant m
      ≡ count_owners tenant t + owner_unit tenant (set_role role m)
unfolding find update update_many count_owners
count_owners-update tenant id role [] m u h = ground arith
count_owners-update tenant id role ((i, x) ∷ t) m u h = elim (Bool-cases (id == i)) [
  | inl hit ↦
      let same_id : id ≡ i = (==_iff id i).0 hit in
      ground (arith, update-absent i role t, u.0, same_id)
  | inr miss ↦ ground (arith, count_owners-update tenant id role t m u.1, ==_iff i id)
]

delete-absent : (id : ℕ) (t : Table Membership) → find id t ≡ none → delete_row id t ≡ t
unfolding find delete_row
delete-absent id [] h = refl
delete-absent id ((i, m) ∷ t) h = ground (arith, delete-absent id t, ==_iff id i, ==_iff i id)

count_owners-delete :
    (tenant id : ℕ) (t : Table Membership) (m : Membership)
    → IsKeyed t
    → find id t ≡ some m
    → count_owners tenant (delete_row id t) + owner_unit tenant m ≡ count_owners tenant t
unfolding find delete_row count_owners
count_owners-delete tenant id [] m u h = ground arith
count_owners-delete tenant id ((i, x) ∷ t) m u h = elim (Bool-cases (id == i)) [
  | inl hit ↦
      let same_id : id ≡ i = (==_iff id i).0 hit in ground (arith, delete-absent i t, u.0, same_id)
  | inr miss ↦ ground (arith, count_owners-delete tenant id t m u.1, ==_iff i id)
]

-- What a change of a role can do to the memberships: nothing, or the change, with its guards passed.
update_role_inv :
    (acting : Acting) (tenant id : ℕ) (role : TenantRole) (r : Registry)
    → let after = (state_of (update_role acting tenant id role r)).memberships in
      (after ≡ r.memberships)
      ⊎ ((m : Membership) × (find_membership tenant id r ≡ some m)
          × (may_change acting.role m.role ≡ true)
          × (may_assign acting.role role ≡ true)
          × ((is_owner_role m.role
                && not (is_owner_role role)
                && leb (count_owners tenant r.memberships) 1)
              ≡ false)
          × (after ≡ update id (set_role role) r.memberships))
unfolding update_role assert_not_last_owner log_action ◌>>=◌
update_role_inv acting tenant id role r = ground arith

remove_inv :
    (acting : Acting) (tenant id : ℕ) (r : Registry)
    → let after = (state_of (remove acting tenant id r)).memberships in
      (after ≡ r.memberships)
      ⊎ ((m : Membership) × (find_membership tenant id r ≡ some m)
          × (may_change acting.role m.role ≡ true)
          × ((is_owner_role m.role && leb (count_owners tenant r.memberships) 1) ≡ false)
          × (after ≡ delete_row id r.memberships))
unfolding remove assert_not_last_owner log_action ◌>>=◌
remove_inv acting tenant id r = ground arith

find_membership-find :
    (tenant id : ℕ) (r : Registry) (m : Membership)
    → find_membership tenant id r ≡ some m
    → (find id r.memberships ≡ some m) × (m.tenant_id ≡ tenant)
unfolding find_membership
find_membership-find tenant id r m h = ground arith

-- Where memberships have distinct ids, a store that has an owner still has one after any change of a role,
-- in that store or another.
pub update_role_keeps_owner :
    (acting : Acting) (tenant id : ℕ) (role : TenantRole) (r : Registry) (store : ℕ)
    → IsKeyed r.memberships
    → 1 ≤ count_owners store r.memberships
    → 1 ≤ count_owners store (state_of (update_role acting tenant id role r)).memberships
update_role_keeps_owner acting tenant id role r store keyed some_owner =
    elim (update_role_inv acting tenant id role r) [
      | inl same_rows ↦ rw same_rows some_owner
      | inr (m, known, change, assign, guarded, after) ↦
          let (found, of_tenant) = find_membership-find tenant id r m known in
          rw after (
            ground (
              arith,
              count_owners-update store id role r.memberships m keyed found,
              ==_iff store m.tenant_id,
              ==_iff m.tenant_id store,
            ))
    ]

-- Where memberships have distinct ids, a store that has an owner still has one after any removal, from
-- that store or another.
pub remove_keeps_owner :
    (acting : Acting) (tenant id : ℕ) (r : Registry) (store : ℕ)
    → IsKeyed r.memberships
    → 1 ≤ count_owners store r.memberships
    → 1 ≤ count_owners store (state_of (remove acting tenant id r)).memberships
remove_keeps_owner acting tenant id r store keyed some_owner =
    elim (remove_inv acting tenant id r) [
      | inl same_rows ↦ rw same_rows some_owner
      | inr (m, known, change, guarded, after) ↦
          let (found, of_tenant) = find_membership-find tenant id r m known in
          rw after (
            ground (
              arith,
              count_owners-delete store id r.memberships m keyed found,
              ==_iff store m.tenant_id,
              ==_iff m.tenant_id store,
            ))
    ]

find-delete_row_other :
    (k id : ℕ) (t : Table Membership) → (k == id) ≡ false → find k (delete_row id t) ≡ find k t
unfolding find delete_row
find-delete_row_other k id [] h = refl
find-delete_row_other k id ((i, m) ∷ t) h =
    ground (arith, find-delete_row_other k id t, ==_iff k i, ==_iff i id)

-- Whoever is not an owner changes no membership of an owner or of an admin manager, by a change of a
-- role or by a removal, whatever the request names.
pub protected_from_managers :
    (acting : Acting) (tenant id : ℕ) (role : TenantRole) (r : Registry) (k : ℕ) (m : Membership)
    → is_owner_role acting.role ≡ false
    → find k r.memberships ≡ some m
    → any (same m.role) protected_roles ≡ true
    → (find k (state_of (update_role acting tenant id role r)).memberships ≡ some m)
      × (find k (state_of (remove acting tenant id r)).memberships ≡ some m)
protected_from_managers acting tenant id role r k m not_owner found protected = (
  elim (update_role_inv acting tenant id role r) [
    | inl same_rows ↦ rw same_rows found
    | inr (x, known, change, assign, guarded, after) ↦
        let (at_id, of_tenant) = find_membership-find tenant id r x known in
        rw after (ground (arith, find-update k id (set_role role) r.memberships, ==_iff k id))
  ],
  elim (remove_inv acting tenant id r) [
    | inl same_rows ↦ rw same_rows found
    | inr (x, known, change, guarded, after) ↦
        let (at_id, of_tenant) = find_membership-find tenant id r x known in
        rw after (ground (arith, find-delete_row_other k id r.memberships, ==_iff k id))
  ],
)
