-- ===== src/Replica/Service/Stream.antt =====
-- internal/replica/service.go: the frames of `consumeStream`. The lines of the response are what the
-- scanner yields, each read at a time of the clock; the error at the end is the monitor's, the
-- scanner's, or end of file.
pub mod Lines
pub mod CatchUp
use novig_take_home.Base.{List, [], ◌∷◌, Option, none, some}
use novig_take_home.Base.Int.{ℤ}
use novig_take_home.Base.Errors.{Error, wrap, Result, ok, err}
use novig_take_home.Domain.{ReplicationEvent}
use novig_take_home.Domain.Json.{Json}
use novig_take_home.Replica.Store.{Sqlite}
use novig_take_home.Replica.Service.State.{Service}
use novig_take_home.Replica.Service.Process.{process_event}

-- A line without the prefix "data: ", or what encoding/json makes of the rest of the line.
pub data Line : Type 0 where
  other_line : Line
  data_line : Result ReplicationEvent → Line

module _ (sql : Sqlite) (json : Json) where
  -- The signal to the idle monitor, which is not waited for, is left out.
  unfoldable pub consume_line : Line → ℤ → Service sql → Option Error × Service sql
  consume_line other_line now_ms s = (none, s)
  consume_line (data_line (err e)) now_ms s = (some (wrap "decode event: %w" [] e), s)
  consume_line (data_line (ok evt)) now_ms s = process_event sql json evt now_ms s

  -- The loop returns at the first error.
  unfoldable pub consume_lines : List (Line × ℤ) → Error → Service sql → Error × Service sql
  unfolding consume_line
  consume_lines [] ended s = (ended, s)
  consume_lines ((line, now_ms) ∷ rest) ended s =
      let (failed, s') = consume_line line now_ms s in
      elim failed [ some e ↦ (e, s') | none ↦ consume_lines rest ended s' ]
