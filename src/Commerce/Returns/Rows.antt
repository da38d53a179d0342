-- ===== src/Commerce/Returns/Rows.antt =====
-- return.repository.ts: the reads and writes of one request.
use Prim.Native.String.{String}
use all_in_one_v2_api.Base.{
  ℕ, ◌==◌, Option, none, some, ◌∷◌, if◌then◌else◌, find, update, thrown, ◌>>=◌, gets, or_throw,
  modify,
}
use all_in_one_v2_api.Commerce.Status.{ReturnStatus, ActorRole}
use all_in_one_v2_api.Commerce.Store.{Return, HistoryEntry, Store, Action}

abbrev pub return_of_tenant : ℕ → Option Return → Option Return
return_of_tenant tenant none = none
return_of_tenant tenant (some r) = if r.tenant_id == tenant then some r else none

-- findById and findByIdWithDetail
unfoldable pub find_return : ℕ → ℕ → Store → Option Return
find_return tenant id s = return_of_tenant tenant (find id s.returns)

-- `note !== undefined ? { notes: note } : {}`
abbrev pub new_notes : Option String → Option String → Option String
new_notes none old = old
new_notes (some note) old = some note

-- the `data` of transitionStatus, on the row of which it read `from`
unfoldable pub moved_return :
    ReturnStatus → ReturnStatus → Option ℕ → ActorRole → Option String → Return → Return
moved_return from to user role note r =
    let entry : HistoryEntry = record {
      from_status = some from;
      to_status = to;
      actor_user_id = user;
      actor_role = role;
    } in
    record r { status = to; notes = new_notes note r.notes; history = entry ∷ r.history }

-- transitionStatus, one transaction
unfoldable pub transition_status :
    ℕ → ℕ → ReturnStatus → Option ℕ → ActorRole → Option String → Action (Unit {0})
unfolding find_return
transition_status tenant id to user role note = do
  existing ← or_throw (← gets (find_return tenant id)) thrown
  modify λ s. record s {
    returns = update id (moved_return existing.status to user role note) s.returns;
  }

-- updateReturnStatus: no history row
abbrev pub set_return_status : ReturnStatus → Option String → Return → Return
set_return_status to notes r = record r { status = to; notes = new_notes notes r.notes }
