-- ===== src/Replica/Service/Stream/Lines.antt =====
-- What the end-to-end proofs ask of the store and of the lines that a replica reads.
use novig_take_home.Base.{String, false, ◌≡◌, ◌≢◌, List, [], ◌∷◌, ◌++◌, arith, string_eq, eq_iff}
use novig_take_home.Base.Int.{ℤ}
use novig_take_home.Base.Lists.{All}
use novig_take_home.Base.Errors.{Error, ok, err}
use novig_take_home.Domain.{MarketState, ReplicationEvent}
use novig_take_home.Domain.Json.{Json}
use novig_take_home.Replica.Store.{
  AppliedEvent, Sqlite, is_applied, is_event_applied, commit_applied_event,
}
use novig_take_home.Replica.Validate.Accepted.{IsEnvelope, IsPayloadOf}
use novig_take_home.Replica.Service.Stream.{Line, other_line, data_line}

-- The rows and the checkpoint can be read and written at each call.
pub record Reliable (sql : Sqlite) : Type 0 where
  pub reads :
      (event_id : String) (db : sql.Db) (e : Error) → (is_event_applied sql event_id db).0 ≢ err e
  pub writes :
      (event_id : String) (seq ts_ms : ℤ) (db : sql.Db) (e : Error)
      → (commit_applied_event sql event_id seq ts_ms db).0 ≢ err e

module _ (json : Json) where
  -- An event that carries a well-formed state of its market.
  abbrev pub IsGood : ReplicationEvent → Type 0
  IsGood evt =
      IsEnvelope evt
      × (market : MarketState) × (json.unmarshal evt.payload ≡ ok market)
      × IsPayloadOf evt market

-- The identifiers are new to the rows, and differ from one another.
abbrev pub AreNew : List AppliedEvent → List ReplicationEvent → Type 0
AreNew rows [] = Unit
AreNew rows (evt ∷ rest) =
    (is_applied evt.event_id rows ≡ false)
    × All (λ (later : ReplicationEvent). later.event_id ≢ evt.event_id) rest
    × AreNew rows rest

-- The lines of the events, with the times of the clock and lines of other kinds between them.
pub data LinesOf : List ReplicationEvent → List (Line × ℤ) → Type 0 where
  at_end : LinesOf [] []
  skips :
      {evts : List ReplicationEvent} {lines : List (Line × ℤ)} (now_ms : ℤ)
      → LinesOf evts lines
      → LinesOf evts ((other_line, now_ms) ∷ lines)
  carries :
      {evts : List ReplicationEvent} {lines : List (Line × ℤ)} (evt : ReplicationEvent) (now_ms : ℤ)
      → LinesOf evts lines
      → LinesOf (evt ∷ evts) ((data_line (ok evt), now_ms) ∷ lines)

is_applied-append :
    (id : String) (rows : List AppliedEvent) (row : AppliedEvent)
    → is_applied id rows ≡ false
    → id ≢ row.event_id
    → is_applied id (rows ++ row ∷ []) ≡ false
unfolding is_applied
is_applied-append id [] row h ne = ground (arith, eq_iff row.event_id id)
is_applied-append id (r ∷ rows) row h ne = ground (arith, is_applied-append id rows row)

pub AreNew-append :
    (rows : List AppliedEvent) (row : AppliedEvent) (evts : List ReplicationEvent)
    → All (λ (later : ReplicationEvent). later.event_id ≢ row.event_id) evts
    → AreNew rows evts
    → AreNew (rows ++ row ∷ []) evts
AreNew-append rows row [] other fresh = tt
AreNew-append rows row (evt ∷ rest) other fresh = (
  is_applied-append evt.event_id rows row fresh.0 other.0,
  fresh.1,
  AreNew-append rows row rest other.1 fresh.2,
)
