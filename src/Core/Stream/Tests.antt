-- ===== src/Core/Stream/Tests.antt =====
-- A response in memory, and a stream over it.
use novig_take_home.Base.{◌≡◌, refl, List, [], ◌∷◌, none, some, arith}
use mathlib.Core.Option.{map as map_option}
use novig_take_home.Base.Int.{pos}
use novig_take_home.Base.Map.{get}
use novig_take_home.Base.Decimal.{parse_int, format_int}
use novig_take_home.Core.Fixture.{table, two_states}
use novig_take_home.Core.Service.Fixture.{
  suspended_event, one_event_core, one_event_core-Consistent,
}
use novig_take_home.Core.Service.History.{reads_events}
use novig_take_home.Core.Stream.{
  connected, event_line, data_line, parse_from_seq, request_done, from_channel, step,
}
use novig_take_home.Core.Service.History
use novig_take_home.Core.EventStore.{events_from_seq, select_from}
use novig_take_home.Core.Hub.{receive, unsubscribe}
use novig_take_home.Core.Stream.Fixture.{buffer, opened, subscribed_core, open_stream_first}
use novig_take_home.Core.Stream.Writing.{payloads}
use novig_take_home.Core.Stream.Schedule.{Act, handles, calls, act, run}
use novig_take_home.Core.Stream.Exact.{Streamed, open_stream-Streamed, parse_from_seq-format_int}

parse_from_seq_default : parse_from_seq [] ≡ some (pos 1)
unfolding parse_from_seq
parse_from_seq_default = refl

parse_from_seq_zero : parse_from_seq (b'0' ∷ []) ≡ none
unfolding parse_from_seq parse_int
parse_from_seq_zero = refl

parse_from_seq_twelve : parse_from_seq (b'1' ∷ b'2' ∷ []) ≡ some (pos 12)
unfolding parse_from_seq parse_int
parse_from_seq_twelve = refl

parse_from_seq-format_int_example : parse_from_seq (format_int (pos 1_204)) ≡ some (pos 1_204)
parse_from_seq-format_int_example =
    parse_from_seq-format_int (pos 1_204) (omega arith) (omega arith)

-- The handler reads the backlog, waits, and leaves at the end of the request.
abbrev backlog_acts : List Act
backlog_acts =
    handles from_channel
    ∷ calls (reads_events (pos 1))
    ∷ handles from_channel
    ∷ handles request_done
    ∷ handles request_done
    ∷ []

open_stream-Streamed_example :
    Streamed buffer table two_states []
      (suspended_event ∷ [])
      1
      []
      (run buffer table two_states backlog_acts opened subscribed_core)
unfolding payloads
open_stream-Streamed_example =
    open_stream-Streamed buffer table two_states [] (suspended_event ∷ []) 1 [] [] one_event_core
      backlog_acts opened subscribed_core one_event_core-Consistent refl (omega arith)
      (open_stream_first [] parse_from_seq_default)

-- What that run has written.
backlog_written :
    map_option (λ r. r.0.conn) (run buffer table two_states backlog_acts opened subscribed_core)
    ≡ some (connected ∷ event_line ∷ data_line "event" ∷ [])
unfolding run step act History.step events_from_seq select_from receive unsubscribe get
backlog_written = refl
