-- ===== src/Sql.antt =====
-- What the SQL storages (libs/cap-storage-prisma, libs/cap-storage-knex) ask of a database: statements as data,
-- and the documented effect of an UPDATE, by which the storages' theorems state what they rely on.
pub mod Rows
pub mod Operations
pub mod Snapshots
use cap_nodejs.Prelude.{ℕ, suc, Bool, true, false, List, [], ◌∷◌, ◌≡◌, if◌then◌else◌}

-- One assignment of a SET clause: from the row that its expression reads, and the row as it stands, the row with
-- the column written.
abbrev pub Assignment : Type 0 → Type 0
Assignment R = R → R → R

-- `UPDATE ... SET assignments WHERE condition`
pub record Update (R : Type 0) : Type 0 where
  pub assignments : List (Assignment R)
  pub condition : R → Bool

module _ {R : Type 0} where
  -- The expressions of a SET clause read the row as it was before the statement; those of MySQL read what the
  -- assignments to their left wrote.
  abbrev pub assign : Bool → List (Assignment R) → R → R → R
  assign in_order [] old r = r
  assign in_order (a ∷ xs) old r = assign in_order xs old (a (if in_order then r else old) r)

  abbrev pub matched : Update R → List R → ℕ
  matched u [] = 0
  matched u (r ∷ t) = if u.condition r then suc (matched u t) else matched u t

  abbrev pub updated : Bool → Update R → List R → List R
  updated in_order u [] = []
  updated in_order u (r ∷ t) =
      (if u.condition r then assign in_order u.assignments r r else r) ∷ updated in_order u t

  -- A database that executes an UPDATE as documented, and reports how many rows matched.
  abbrev pub Executes : Bool → (Update R → List R → ℕ × List R) → Type 0
  Executes in_order execute =
      (u : Update R) (t : List R) → execute u t ≡ (matched u t, updated in_order u t)
