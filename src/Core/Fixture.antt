-- ===== src/Core/Fixture.antt =====
-- A table in memory and an encoding of two states: values that meet the interfaces to SQLite and
-- to encoding/json, for tests.
use novig_take_home.Base.{
  String, true, ◌≡◌, refl, sym, ap, List, [], ◌∷◌, ◌++◌, map, Option, none, some, arith,
  if◌then◌else◌, ◌==◌, string_eq, Bool-cases, inl, inr,
}
use novig_take_home.Base.Int.{pos}
use novig_take_home.Base.Errors.{Error, errorf, Result, ok, err, ok_injective}
use novig_take_home.Domain.{
  MarketState, ReplicationEvent, reason_none, bet_rate_spike, status_open, status_suspended,
}
use novig_take_home.Domain.Equality.{is_equal, is_equal_iff}
use novig_take_home.Core.EventStore.{Sqlite, is_new, select_from, max_seq}
use novig_take_home.Domain.Json.{Json}

abbrev pub open_market : MarketState
open_market = record {
  market_id = "m1";
  status = status_open;
  bet_count_30s = pos 0;
  stake_sum_30s_cents = pos 0;
  liability_delta_30s_cents = pos 0;
  cooldown_until_unix_ms = pos 0;
  last_reason = reason_none;
  last_transition_unix_ms = pos 0;
}

abbrev pub suspended_market : MarketState
suspended_market = record {
  market_id = "m1";
  status = status_suspended;
  bet_count_30s = pos 144;
  stake_sum_30s_cents = pos 360_000;
  liability_delta_30s_cents = pos 2_400_000;
  cooldown_until_unix_ms = pos 61_000;
  last_reason = bet_rate_spike;
  last_transition_unix_ms = pos 1_000;
}

abbrev Table : Type 0
Table = List ReplicationEvent

abbrev table_insert : ReplicationEvent → Table → Option Error × Table
table_insert evt db =
    if is_new evt db then (none, db ++ evt ∷ []) else (some (errorf "constraint failed" []), db)

pub table_insert_done :
    (evt : ReplicationEvent) (db db' : Table)
    → table_insert evt db ≡ (none, db')
    → (is_new evt db ≡ true) × (db' ≡ db ++ evt ∷ [])
table_insert_done evt db db' h = elim (Bool-cases (is_new evt db)) [
  | inl e ↦ (e, ground (arith, e))
  | inr e ↦ absurd (ground (arith, e))
]

pub table_insert_failed :
    (evt : ReplicationEvent) (db db' : Table) (x : Error)
    → table_insert evt db ≡ (some x, db')
    → db' ≡ db
table_insert_failed evt db db' x h = elim (Bool-cases (is_new evt db)) [
  | inl e ↦ absurd (ground (arith, e))
  | inr e ↦ ground (arith, e)
]

pub map-ok_injective : (xs ys : List ReplicationEvent) → map ok xs ≡ map ok ys → xs ≡ ys
map-ok_injective [] [] h = refl
map-ok_injective [] (y ∷ ys) h = cc
map-ok_injective (x ∷ xs) [] h = cc
map-ok_injective (x ∷ xs) (y ∷ ys) h = ground (arith, map-ok_injective xs ys)

abbrev pub table : Sqlite
table = record {
  Db = Table;
  rows = λ db. db;
  exec_insert = table_insert;
  query_from = λ from db. (ok (map ok (select_from from db), none), db);
  query_max = λ db. (ok (max_seq db), db);
  insert_done = table_insert_done;
  insert_failed = table_insert_failed;
  query_from_keeps = λ from db. refl;
  query_from_rows = λ from db found h.
      map-ok_injective found (select_from from db) (sym (ap (λ p. p.0) (ok_injective _ _ h)));
  query_max_keeps = λ db. refl;
  query_max_value = λ db m h. sym (ok_injective (max_seq db) m h);
}

abbrev encode : MarketState → Result String
encode m =
    if is_equal m open_market
    then ok "open"
    else if is_equal m suspended_market
    then ok "suspended"
    else err (errorf "unsupported value" [])

abbrev decode : String → Result MarketState
decode p =
    if p == "open"
    then ok open_market
    else if p == "suspended"
    then ok suspended_market
    else err (errorf "invalid character" [])

pub decode-encode : (m : MarketState) (p : String) → encode m ≡ ok p → decode p ≡ ok m
decode-encode m p h = elim (Bool-cases (is_equal m open_market)) [
  | inl a ↦
      let q = ok_injective "open" p (rw a at h) in rw (← q, (is_equal_iff m open_market).0 a) refl
  | inr a ↦ elim (Bool-cases (is_equal m suspended_market)) [
    | inl b ↦
        let q = ok_injective "suspended" p (rw (a, b) at h) in
        rw (← q, (is_equal_iff m suspended_market).0 b) refl
    | inr b ↦ let impossible = (rw (a, b) at h) in cc impossible
  ]
]

abbrev pub two_states : Json
two_states = record { marshal = encode; unmarshal = decode; unmarshal-marshal = decode-encode }
