-- ===== src/Inventory/Interleaved.antt =====
-- Requests that reserve and release the same row at once: each reads the row, and writes later, under
-- the version that it read.
use all_in_one_v2_api.Base.{
  ℕ, ◌+◌, ◌-◌, ◌≤◌, ◌≡◌, refl, ◌==◌, false, List, [], ◌∷◌, arith, All, if◌then◌else◌, Bool-cases,
  ==_iff, inl, inr,
}
use all_in_one_v2_api.Base.Int.{pos, ltb_ℤ}
use all_in_one_v2_api.Inventory.{Stock, reserved_more, released}

-- The row, and what the requests that are under way have read.
pub record Shared : Type 0 where
  pub row : Stock
  pub read : List Stock

-- the write of a request, if the row still has the version that was read
abbrev pub written : Stock → (Stock → Stock) → Stock → Stock
written found f row = if row.version == found.version then f row else row

-- what one request has read stands in the list
pub data Among (s : Stock) : List Stock → Type 0 where
  newest : {rest : List Stock} → Among s (s ∷ rest)
  older : {t : Stock} {rest : List Stock} → Among s rest → Among s (t ∷ rest)

pub data Step (c : Shared) : Shared → Type 0 where
  look : Step c (record c { read = c.row ∷ c.read })
  reserve :
      {found : Stock} (quantity : ℕ)
      → Among found c.read
      → ltb_ℤ found.available (pos quantity) ≡ false
      → Step c (record c { row = written found (reserved_more found quantity) c.row })
  release :
      {found : Stock} (quantity : ℕ)
      → Among found c.read
      → Step c (record c { row = written found (released found quantity) c.row })

pub data Run : Shared → Shared → Type 0 where
  stay : {c : Shared} → Run c c
  step : {c d e : Shared} → Step c d → Run d e → Run c e

-- The row shows what is left of the stock, and no more is reserved than there is.
abbrev pub IsSound : Stock → Type 0
IsSound s = (s.reserved ≤ s.on_hand) × (s.available ≡ pos (s.on_hand - s.reserved))

-- a read of the current version is the current row
abbrev IsFresh : Stock → Stock → Type 0
IsFresh row found = (found.version ≤ row.version) × (found.version ≡ row.version → found ≡ row)

abbrev IsConsistent : Shared → Type 0
IsConsistent c = IsSound c.row × All (IsFresh c.row) c.read

among-All : (P : Stock → Type 0) {s : Stock} {xs : List Stock} → Among s xs → All P xs → P s
among-All P newest h = h.0
among-All P (older m) h = among-All P m h.1

pub reserved_more-IsSound :
    (s : Stock) (quantity : ℕ)
    → IsSound s
    → ltb_ℤ s.available (pos quantity) ≡ false
    → IsSound (reserved_more s quantity s)
reserved_more-IsSound s quantity (fits, shown) enough =
    let room : s.reserved + quantity ≤ s.on_hand = ground arith in (room, ground arith)

released-IsSound : (s : Stock) (quantity : ℕ) → IsSound s → IsSound (released s quantity s)
released-IsSound s quantity (fits, shown) = (omega arith, ground arith)

-- a write moves the version on, so no earlier read is of the current version
stale :
    (row next : Stock) (read : List Stock)
    → next.version ≡ row.version + 1
    → All (IsFresh row) read
    → All (IsFresh next) read
stale row next [] e h = tt
stale row next (s ∷ rest) e h = ((omega arith, λ same. ground arith), stale row next rest e h.1)

write-IsConsistent :
    (c : Shared) (found : Stock) (f : Stock → Stock → Stock)
    → IsConsistent c
    → IsFresh c.row found
    → ((x : Stock) → (f x x).version ≡ x.version + 1)
    → (found ≡ c.row → IsSound (f c.row c.row))
    → IsConsistent (record c { row = written found (f found) c.row })
write-IsConsistent c found f (sound, fresh) known moved kept =
    elim (Bool-cases (c.row.version == found.version)) [
      | inr other ↦ rw other (sound, fresh)
      | inl current ↦
          let same : found ≡ c.row = known.1 (ground (arith, ==_iff c.row.version found.version)) in
          rw current (rw same (kept same, stale c.row (f c.row c.row) c.read (moved c.row) fresh))
    ]

Step-IsConsistent : {c d : Shared} → Step c d → IsConsistent c → IsConsistent d
Step-IsConsistent {c} look (sound, fresh) = (sound, ((omega arith, λ _. refl), fresh))
Step-IsConsistent {c} (reserve {found} quantity m enough) h =
    write-IsConsistent c found (λ found. reserved_more found quantity) h
      (among-All (IsFresh c.row) m h.1) (λ x. refl)
      (λ same. reserved_more-IsSound c.row quantity h.0 (rw same at enough))
Step-IsConsistent {c} (release {found} quantity m) h =
    write-IsConsistent c found (λ found. released found quantity) h
      (among-All (IsFresh c.row) m h.1) (λ x. refl) (λ same. released-IsSound c.row quantity h.0)

Run-IsConsistent : {c d : Shared} → Run c d → IsConsistent c → IsConsistent d
Run-IsConsistent stay h = h
Run-IsConsistent (step s rest) h = Run-IsConsistent rest (Step-IsConsistent s h)

-- However the reads and writes of concurrent reservations and releases of one row are interleaved, from
-- a sound row on: never is more reserved than is on hand, and the row shows as available what is left.
pub Run-IsSound :
    {row : Stock} {d : Shared}
    → Run (record { row = row; read = [] }) d
    → IsSound row
    → IsSound d.row
Run-IsSound run sound = (Run-IsConsistent run (sound, tt)).0
