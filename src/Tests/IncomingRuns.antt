-- ===== src/Tests/IncomingRuns.antt =====
-- A client's two messages, and a server that they come to.
use gortmp.Base.{◌≡◌, refl, List, [], none, map}
use gortmp.Wire.{Error, eof}
use gortmp.Reader.{Session, read_from, new_chunk_stream_reader}
use gortmp.Loopback.Sequence.{messages_sent}
use gortmp.Server.{new_server}
use gortmp.Server.Events.{Event, run}
use gortmp.Server.Incoming.{arrivals, messages_at-arrivals, given, arrived}
use gortmp.Server.Incoming.Client.{run-Reach}
use gortmp.Tests.CommandRuns.{small, values}
use gortmp.Tests.LoopbackRuns.{sink, both_written, both_written-Reach, both_written-CanSend}

abbrev read : Error × Session
read = read_from (new_chunk_stream_reader both_written.sink.out)

-- All that the connection 5 meets.
abbrev coming : List Event
coming = arrivals 5 read.1.events

run-Reach_example :
    (read.0 ≡ eof)
    × (run small values (λ _. none) (new_server []) coming
        ≡ run small values
            (λ _. none)
            (new_server [])
            (given 5 (map arrived (messages_sent both_written.log)) coming))
run-Reach_example =
    run-Reach small values (λ _. none) 5 sink both_written (new_server []) coming both_written-Reach
      refl both_written-CanSend (messages_at-arrivals 5 read.1.events)
