-- ===== src/Inventory/Reserving.antt =====
-- What a reservation and its release do to the row of a place.
use mathlib.Core.Option
use all_in_one_v2_api.Base.{
  ℕ, ◌+◌, ◌-◌, ◌≤◌, ◌≡◌, refl, sym, ap, true, false, Option, none, some, arith, Table,
  find_first-update_many, find_first-holds, any_row-find_first, Outcome, ◌∙◌, Bool-cases, inl, inr,
  succeeds, state_of, ◌>>=◌, if◌then◌else◌, ==_refl,
}
use all_in_one_v2_api.Base.Int.{ℤ, pos, sub_ℕ, ltb_ℤ}
use all_in_one_v2_api.Inventory.{
  Stock, Warehouse, Place, stock_at, is_at, is_version, reserve_stock, release_reservation,
  write_version, reserved_more, released,
}

-- the row's stock, without its id
abbrev pub row_at : Place → Warehouse → Option Stock
row_at p w = Option.map (λ (r : ℕ × Stock). r.1) (stock_at p w.stocks)

is_version-found :
    (p : Place) (t : Table Stock) (i : ℕ) (s : Stock)
    → stock_at p t ≡ some (i, s)
    → is_version p s.version i s ≡ true
unfolding stock_at
is_version-found p t i s h = ground (arith, find_first-holds (is_at p) t i s, ==_refl s.version)

-- A write under the version that was just read succeeds, and findFirst then gives the written row.
write_version_now :
    (p : Place) (w : Warehouse) (f : Stock → Stock) (i : ℕ) (s : Stock)
    → stock_at p w.stocks ≡ some (i, s)
    → ((k : ℕ) (x : Stock) → is_at p k (f x) ≡ is_at p k x)
    → let out = write_version p s.version f w in
      (succeeds out ≡ true) × (stock_at p (state_of out).stocks ≡ some (i, f s))
unfolding write_version ◌>>=◌ stock_at
write_version_now p w f i s h keep =
    rw
      (any_row-find_first (is_at p) (is_version p s.version) w.stocks i s h
        (is_version-found p w.stocks i s h))
      (
        refl,
        rw
            (
              find_first-update_many (is_at p) (is_version p s.version) f w.stocks keep,
              h,
              is_version-found p w.stocks i s h,
            )
            refl,
      )

abbrev pub Refused : Warehouse → Outcome Warehouse (Unit {0}) → Type 0
Refused w out = (succeeds out ≡ false) × (state_of out ≡ w)

abbrev pub Written : Place → ℕ → Stock → Outcome Warehouse (Unit {0}) → Type 0
Written p i s out = (succeeds out ≡ true) × (stock_at p (state_of out).stocks ≡ some (i, s))

-- what reserveStock does, by the row that stands at the place
abbrev pub Reserved :
    Place → ℕ → Warehouse → Option (ℕ × Stock) → Outcome Warehouse (Unit {0}) → Type 0
Reserved p quantity w none out = Refused w out
Reserved p quantity w (some (i, s)) out =
    if ltb_ℤ s.available (pos quantity)
    then Refused w out
    else Written p i (reserved_more s quantity s) out

Reserved-row :
    (p : Place) (quantity : ℕ) (w : Warehouse) (row : Option (ℕ × Stock))
    → stock_at p w.stocks ≡ row
    → Reserved p quantity w row (reserve_stock p quantity w)
unfolding reserve_stock ◌>>=◌
Reserved-row p quantity w none h = rw h (refl, refl)
Reserved-row p quantity w (some (i, s)) h = elim (Bool-cases (ltb_ℤ s.available (pos quantity))) [
  | inl short ↦ rw short (rw h (rw short (refl, refl)))
  | inr enough ↦
      rw enough
        (rw h (rw enough (write_version_now p w (reserved_more s quantity) i s h (λ k x. refl))))
]

-- A reservation on a place without a row, or with less available than asked, throws and writes nothing.
-- Any other succeeds: the row then counts the quantity as reserved, and shows as available what is left.
pub reserve_stock_effect :
    (p : Place) (quantity : ℕ) (w : Warehouse)
    → Reserved p quantity w (stock_at p w.stocks) (reserve_stock p quantity w)
reserve_stock_effect p quantity w = Reserved-row p quantity w (stock_at p w.stocks) refl

release_stock-Written :
    (p : Place) (quantity : ℕ) (w : Warehouse) (i : ℕ) (s : Stock)
    → stock_at p w.stocks ≡ some (i, s)
    → Written p i (released s quantity s) (release_reservation p quantity w)
unfolding release_reservation ◌>>=◌
release_stock-Written p quantity w i s h =
    rw h (write_version_now p w (released s quantity) i s h (λ k x. refl))

enough_available :
    (on_hand reserved quantity : ℕ) (available : ℤ)
    → available ≡ pos (on_hand - reserved)
    → quantity ≤ on_hand - reserved
    → ltb_ℤ available (pos quantity) ≡ false
enough_available on_hand reserved quantity available e h = ground arith

sub_ℕ-pos : (a b : ℕ) → b ≤ a → sub_ℕ a b ≡ pos (a - b)
sub_ℕ-pos a b h = ground arith

restored :
    (s : Stock) (quantity : ℕ)
    → s.available ≡ pos (s.on_hand - s.reserved)
    → s.reserved + quantity ≤ s.on_hand
    → released (reserved_more s quantity s) quantity (reserved_more s quantity s)
      ≡ record s { version = s.version + 2 }
restored s quantity shown room =
    let back : s.reserved + quantity - quantity ≡ s.reserved = omega arith in
    let twice : s.version + 1 + 1 ≡ s.version + 2 = omega arith in
    let available = sub_ℕ-pos s.on_hand s.reserved (omega arith) ∙ sym shown in cc

-- Where a row shows what is left of its stock and has room for the quantity, releasing what was reserved
-- restores the row: only the version, which counts the writes, has moved.
pub release-reserve :
    (p : Place) (quantity : ℕ) (w : Warehouse) (i : ℕ) (s : Stock)
    → stock_at p w.stocks ≡ some (i, s)
    → s.available ≡ pos (s.on_hand - s.reserved)
    → s.reserved + quantity ≤ s.on_hand
    → stock_at p
        (state_of (release_reservation p quantity (state_of (reserve_stock p quantity w)))).stocks
      ≡ some (i, record s { version = s.version + 2 })
release-reserve p quantity w i s h shown room =
    let enough = enough_available s.on_hand s.reserved quantity s.available shown (omega arith) in
    let reserved = rw (h, enough) at (reserve_stock_effect p quantity w) in
    (release_stock-Written p quantity _ i _ reserved.1).1
    ∙ ap (λ x. some (i, x)) (restored s quantity shown room)
