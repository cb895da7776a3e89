-- ===== src/EventlogBench/Seed/Cleanup.antt =====
-- No database is left open after an error, and one that is returned has all its rows.
use novig_take_home.Base.{
  ℕ, zero, suc, String, true, false, ◌≡◌, List, [], ◌∷◌, ◌++◌, Option, none, some,
}
use novig_take_home.Base.Int.{ℤ, pos, add64}
use novig_take_home.Base.Errors.{Error}
use novig_take_home.EventlogBench.Seed.{Row, Driver, seed_row, Built, failed, built}

-- The rows from a number on.
abbrev pub seed_list : ℕ → ℤ → ℤ → List Row
seed_list zero i base_ms = []
seed_list (suc left) i base_ms = seed_row base_ms i ∷ seed_list left (add64 i (pos 1)) base_ms

module _ (d : Driver) where
  -- How a database that was built must be.
  abbrev pub IsSound : ℕ → ℤ → Built d → Type 0
  IsSound row_count base_ms (failed e none) = Unit
  IsSound row_count base_ms (failed e (some db)) = d.is_open db ≡ false
  IsSound row_count base_ms (built db) =
      (d.is_open db ≡ true) × (d.rows db ≡ seed_list row_count (pos 1) base_ms)

  -- What seeding leaves if it reports no error.
  IsSeeded : ℕ → ℤ → d.Db → Option Error × d.Db → Type 0
  IsSeeded row_count base_ms db r =
      (r.0 ≡ none)
      → (d.is_open r.1 ≡ d.is_open db)
        × (d.rows r.1 ≡ d.rows db ++ seed_list row_count (pos 1) base_ms)

  -- A statement that leaves the rows as they are, whether it fails or not.
  abbrev pub KeepsRows : String → Type 0
  KeepsRows stmt = (db : d.Db) → d.rows (d.exec stmt db).1 ≡ d.rows db
