-- ===== src/Core/EventStore/Log.antt =====
-- The log as a gap-free sequence, and the reads of the store over it.
use novig_take_home.Base.{
  ℕ, suc, ◌+◌, ◌<◌, ◌≤◌, ◌≡◌, refl, sym, ap, ◌∙◌, List, [], ◌∷◌, ◌++◌, map, Option, none, some,
  arith, inl, inr, ℕ_discrete, ◌⊎◌, Option-cases,
}
use novig_take_home.Base.Int.{ℤ, pos}
use novig_take_home.Base.Lists.{length}
use novig_take_home.Base.Errors.{Error, wrap, Result, ok, err}
use novig_take_home.Domain.{ReplicationEvent}
use novig_take_home.Core.EventStore.{
  Sqlite, insert_by_seq, select_from, max_seq, scan_rows, read_events, read_max, insert,
  events_from_seq, last_seq,
}

-- The sequence numbers go up by one, from `lo` (exclusive) to `hi`.
abbrev pub Sequenced : ℕ → List ReplicationEvent → ℕ → Type 0
Sequenced lo [] hi = lo ≡ hi
Sequenced lo (evt ∷ rest) hi = (evt.seq ≡ pos (suc lo)) × Sequenced (suc lo) rest hi

pub Sequenced-append :
    (lo mid hi : ℕ) (xs ys : List ReplicationEvent)
    → Sequenced lo xs mid
    → Sequenced mid ys hi
    → Sequenced lo (xs ++ ys) hi
Sequenced-append lo mid hi [] ys s t = rw s t
Sequenced-append lo mid hi (x ∷ xs) ys s t = (s.0, Sequenced-append (suc lo) mid hi xs ys s.1 t)

pub Sequenced-length :
    (lo hi : ℕ) (xs : List ReplicationEvent) → Sequenced lo xs hi → lo + length xs ≡ hi
Sequenced-length lo hi [] s = omega arith
Sequenced-length lo hi (x ∷ xs) s = omega (arith, Sequenced-length (suc lo) hi xs s.1)

abbrev pub or_else : Option ℤ → ℤ → ℤ
or_else none z = z
or_else (some m) z = m

-- The largest number of a sequence is its last.
pub max_seq-Sequenced :
    (lo hi : ℕ) (xs : List ReplicationEvent)
    → Sequenced lo xs hi
    → or_else (max_seq xs) (pos lo) ≡ pos hi
unfolding max_seq
max_seq-Sequenced lo hi [] s = ap pos s
max_seq-Sequenced lo hi (x ∷ xs) s =
    ground (arith, max_seq-Sequenced (suc lo) hi xs s.1, Sequenced-length (suc lo) hi xs s.1)

insert_by_seq-Sequenced :
    (lo hi : ℕ) (x : ReplicationEvent) (xs : List ReplicationEvent)
    → x.seq ≡ pos (suc lo)
    → Sequenced (suc lo) xs hi
    → insert_by_seq x xs ≡ x ∷ xs
unfolding insert_by_seq
insert_by_seq-Sequenced lo hi x [] e s = refl
insert_by_seq-Sequenced lo hi x (y ∷ ys) e s = ground arith

pub select_from_all :
    (from lo hi : ℕ) (xs : List ReplicationEvent)
    → from ≤ suc lo
    → Sequenced lo xs hi
    → select_from (pos from) xs ≡ xs
unfolding select_from
select_from_all from lo hi [] le s = refl
select_from_all from lo hi (x ∷ xs) le s =
    ground (arith, select_from_all from (suc lo) hi xs, insert_by_seq-Sequenced lo hi x xs s.0 s.1)

-- A log splits before a number in reach, and a read from that number is the part after.
pub record Split (lo mid hi : ℕ) (xs : List ReplicationEvent) : Type 0 where
  pub before : List ReplicationEvent
  pub joined : before ++ select_from (pos (suc mid)) xs ≡ xs
  pub earlier : Sequenced lo before mid
  pub later : Sequenced mid (select_from (pos (suc mid)) xs) hi

pub select_from_skip :
    (from lo : ℕ) (x : ReplicationEvent) (xs : List ReplicationEvent)
    → suc lo < from
    → x.seq ≡ pos (suc lo)
    → select_from (pos from) (x ∷ xs) ≡ select_from (pos from) xs
unfolding select_from
select_from_skip from lo x xs lt e = ground arith

-- A read of a gap-free log from a number in reach is exactly the part of the log from that number
-- on, gap-free itself, and the rest is the part before.
pub select_from-Split :
    (lo mid hi : ℕ) (xs : List ReplicationEvent)
    → lo ≤ mid
    → mid ≤ hi
    → Sequenced lo xs hi
    → Split lo mid hi xs
select_from-Split lo mid hi [] a b s =
    unfold select_from in
    record { before = []; joined = refl; earlier = omega arith; later = omega arith }
select_from-Split lo mid hi (x ∷ xs) a b s = elim (ℕ_discrete lo mid) [
  | yes same ↦
      let all = select_from_all (suc mid) lo hi (x ∷ xs) (omega arith) s in
      record { before = []; joined = all; earlier = same; later = rw (all, ← same) s }
  | no less ↦
      let skip = select_from_skip (suc mid) lo x xs (omega arith) s.0 in
      let r = select_from-Split (suc lo) mid hi xs (omega arith) b s.1 in
      record {
        before = x ∷ r.before;
        joined = rw skip (ap (◌∷◌ x) r.joined);
        earlier = (s.0, r.earlier);
        later = rw skip r.later;
      }
]

scan_rows-ok :
    (found : List (Result ReplicationEvent)) (last : Option Error) (out : List ReplicationEvent)
    → scan_rows found last ≡ ok out
    → (found ≡ map ok out) × (last ≡ none)
unfolding scan_rows
scan_rows-ok [] none out h = ground arith
scan_rows-ok [] (some e) out h = ground arith
scan_rows-ok (err e ∷ rest) last out h = ground arith
scan_rows-ok (ok evt ∷ rest) last [] h = ground arith
scan_rows-ok (ok evt ∷ rest) last (o ∷ out) h = ground (arith, scan_rows-ok rest last out)

read_events-ok :
    (answer : Result (List (Result ReplicationEvent) × Option Error)) (out : List ReplicationEvent)
    → read_events answer ≡ ok out
    → answer ≡ ok (map ok out, none)
unfolding read_events
read_events-ok (err e) out h = cc
read_events-ok (ok (found, last)) out h = let (f, l) = scan_rows-ok found last out h in cc (f, l)

read_max-ok :
    (answer : Result (Option ℤ)) (last : ℤ)
    → read_max answer ≡ ok last
    → (m : Option ℤ) × (answer ≡ ok m) × (or_else m (pos 0) ≡ last)
unfolding read_max
read_max-ok (err e) last h = cc
read_max-ok (ok none) last h = (none, refl, cc)
read_max-ok (ok (some m)) last h = (some m, refl, cc)

module _ (sql : Sqlite) where
  open sql use {
    Db, rows, query_from, query_max, query_from_rows, query_from_keeps, query_max_value,
    query_max_keeps, exec_insert, insert_done, insert_failed,
  }

  -- A read that succeeds returns the rows of the table from that number on, in their order, with
  -- none lost to a failed scan. A read, failed or not, changes no row.
  pub events_from_seq_lem :
      (from_seq : ℤ) (db : Db)
      → ((out : List ReplicationEvent)
          → (events_from_seq sql from_seq db).0 ≡ ok out
          → out ≡ select_from from_seq (rows db))
        × (rows (events_from_seq sql from_seq db).1 ≡ rows db)
  unfolding events_from_seq
  events_from_seq_lem from_seq db = (
    λ out h. query_from_rows from_seq db out (read_events-ok (query_from from_seq db).0 out h),
    query_from_keeps from_seq db,
  )

  -- Over a log that runs from 1 to n, the last number that the store reports is n.
  pub last_seq-Sequenced :
      (n : ℕ) (db : Db) (last : ℤ)
      → Sequenced 0 (rows db) n
      → (last_seq sql db).0 ≡ ok last
      → last ≡ pos n
  unfolding last_seq
  last_seq-Sequenced n db last s h =
      let (m, e, value) = read_max-ok (query_max db).0 last h in
      let found = query_max_value db m e in
      sym value ∙ ap (λ o. or_else o (pos 0)) found ∙ max_seq-Sequenced 0 n (rows db) s

  pub rows-last_seq : (db : Db) → rows (last_seq sql db).1 ≡ rows db
  unfolding last_seq
  rows-last_seq db = query_max_keeps db

  -- An insert that succeeds appends its row, and one that fails changes no row.
  pub insert-rows :
      (evt : ReplicationEvent) (db : Db)
      → (((insert sql evt db).0 ≡ none) × (rows (insert sql evt db).1 ≡ rows db ++ evt ∷ []))
        ⊎ ((e : Error) × ((insert sql evt db).0 ≡ some e) × (rows (insert sql evt db).1 ≡ rows db))
  unfolding insert
  insert-rows evt db =
      let db' = (exec_insert evt db).1 in
      elim (Option-cases (exec_insert evt db).0) [
        | inl e ↦ inl (ground (arith, e), (insert_done evt db db' (λ i. (e i, db'))).1)
        | inr (x, e) ↦ inr (
          wrap "insert event_log: %w" [] x,
          ground (arith, e),
          insert_failed evt db db' x (λ i. (e i, db')),
        )
      ]
