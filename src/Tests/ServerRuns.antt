-- ===== src/Tests/ServerRuns.antt =====
-- The server on concrete commands and messages, with the small library of values of CommandRuns.
use Prim.Native.String.{String}
use text.Mathlib.TextEquality.{eq_iff}
use gortmp.Base.{
  ℕ, ◌+◌, ◌≡◌, ◌≢◌, refl, sym, [], ◌∷◌, ◌++◌, some, none, true, false, arith, ◌==◌, Option,
}
use gortmp.Base.{if◌then◌else◌}
use gortmp.Base.Maps.{lookup}
use gortmp.Command.{Command, ConnectCommand, PublishCommand, PlayCommand, DeleteStreamCommand}
use gortmp.Server.{World, sent, Content, ok, left_by, update, update_name, new_server, set_conn}
use gortmp.Server.Connection.{connect_closed, on_command, allocate_stream}
use gortmp.Server.Registry.Invariant.{with_stream}
use gortmp.Server.Publishing.{
  Published, IsAddressed, CanPublish, closing, publish_accepted, publish_refused,
}
use gortmp.Server.Leaving as Leaving
use gortmp.Server.Playing as Playing
use gortmp.Server.Playing.Accepted.{CanPlay}
use gortmp.Server.Allocation.{Allocates, allocate_stream-Allocates}
use gortmp.Server.Answers.{connected, on_command-connect}
use gortmp.Tests.CommandRuns.{small}

abbrev app_named : ℕ → Option String
app_named n = if n == 7 then some "app" else none

-- Connection 5 has stream 0 under the ID 1, and stream 1 under the ID 2.
abbrev start : World
start =
    record (set_conn 5 (record ((new_server []).conns 5) { streams = (2, 1) ∷ (1, 0) ∷ [] })
      (new_server [])) {
        stream = λ s. record ((new_server []).stream s) {
          id = s + 1;
          csid = 4;
          conn = 5;
          handled = true;
        };
        next_stream = 2;
      }

abbrev publish_first : PublishCommand
publish_first = record {
  stream_id = 1;
  transaction_id = 4;
  name = "first";
  type = record { val = ""; set = false };
}

abbrev publish_second : PublishCommand
publish_second = record publish_first { name = "second" }

abbrev publish_again : PublishCommand
publish_again = record publish_first { stream_id = 2 }

abbrev play_first : PlayCommand small
play_first = record {
  stream_id = 2;
  transaction_id = 4;
  name = "first";
  start = record { val = 0; set = false };
}

abbrev delete_one : DeleteStreamCommand
delete_one = record { transaction_id = 5; delete_stream_id = 1 }

abbrev delete_two : DeleteStreamCommand
delete_two = record { transaction_id = 5; delete_stream_id = 2 }

abbrev publishing : World
publishing = record start { streams = update_name (λ n. none) "first" (some 0); next_media = 1 }

start-IsAddressed : IsAddressed 5 0 1 start
unfolding lookup new_server
start-IsAddressed = record { nonzero = omega arith; entered = refl; handled = refl }

first_named : ◌≢◌ {A = String} "first" ""
first_named e = absurd (ground (arith, eq_iff "first" ""))

second_named : ◌≢◌ {A = String} "second" ""
second_named e = absurd (ground (arith, eq_iff "second" ""))

different : ◌≢◌ {A = String} "first" "second"
different e = absurd (ground (arith, eq_iff "first" "second"))

publish_accepted_example :
    Published 0 publish_first
      (with_stream 0 "first" start)
      (left_by (on_command {a = small} app_named 5 (Command.publish publish_first) start))
unfolding new_server
publish_accepted_example =
    publish_accepted small app_named 5 0 publish_first start start-IsAddressed refl first_named refl

second-IsAddressed : IsAddressed 5 1 2 publishing
unfolding lookup new_server
second-IsAddressed = record { nonzero = omega arith; entered = refl; handled = refl }

publish_refused_example :
    let w' : World =
      left_by (on_command {a = small} app_named 5 (Command.publish publish_again) publishing) in
    (w'.streams ≡ publishing.streams)
    × (w'.media 0 ≡ publishing.media 0)
    × (w'.stream ≡ publishing.stream)
    × ((w'.conns 5).closed ≡ true)
    × (w'.trace ≡ publishing.trace ++ (sent 5 3 0 (Content.on_status 0 connect_closed) ∷ []))
unfolding new_server
publish_refused_example =
    publish_refused small app_named 5 1 0 publish_again publishing second-IsAddressed refl refl
      (omega arith)

start-CanPublish : CanPublish 0 "first" start
unfolding new_server
start-CanPublish = record { lucky = refl; named = first_named; handled = refl }

publish_then_delete_example :
    let w' : World = Leaving.after_delete small app_named 5 publish_first delete_one start in
    ((n : String) → w'.streams n ≡ start.streams n)
    × ((w'.media start.next_media).closed ≡ true)
    × ((j : ℕ) → j ≢ start.next_media → w'.media j ≡ start.media j)
    × (lookup 1 (w'.conns 5).streams ≡ none)
unfolding new_server
publish_then_delete_example =
    Leaving.publish_then_delete small app_named 5 0 publish_first delete_one start start-IsAddressed
      refl refl start-CanPublish refl

publish_twice_leaks_example :
    let w' : World =
      Leaving.after_delete small app_named 5 publish_second delete_one
        (left_by (on_command {a = small} app_named 5 (Command.publish publish_first) start)) in
    (w'.streams "first" ≡ some start.next_media)
    × ((w'.media start.next_media).closed ≡ false)
    × (w'.streams "second" ≡ none)
    × (lookup 1 (w'.conns 5).streams ≡ none)
unfolding new_server
publish_twice_leaks_example =
    Leaving.publish_twice_leaks small app_named 5 0 publish_first publish_second delete_one start
      start-IsAddressed refl refl refl start-CanPublish second_named different refl refl

publishing-CanPlay : CanPlay 1 "first" 0 publishing
unfolding new_server
publishing-CanPlay = record {
  lucky = refl;
  named = first_named;
  handled = refl;
  idle = refl;
  stands = refl;
  live = refl;
}

play_then_delete_example :
    let w' : World = Playing.after_delete small app_named 5 1 play_first delete_two publishing in
    (w'.streams ≡ publishing.streams)
    × (w'.media ≡ publishing.media)
    × ((w'.player publishing.next_player).closed ≡ true)
    × (w'.players 1 ≡ none)
    × (lookup 2 (w'.conns 5).streams ≡ none)
unfolding new_server
play_then_delete_example =
    Playing.play_then_delete small app_named 5 1 play_first delete_two 0 publishing
      second-IsAddressed refl refl publishing-CanPlay

-- Stream 1 publishes "second" meanwhile.
abbrev both : World
both = record publishing {
  streams = update_name publishing.streams "second" (some 1);
  stream =
      update publishing.stream 1
        (record (publishing.stream 1) { name = "second"; publishing = true });
  next_media = 2;
}

both-CanPlay : CanPlay 1 "first" 0 both
unfolding new_server
both-CanPlay = record {
  lucky = refl;
  named = first_named;
  handled = refl;
  idle = refl;
  stands = refl;
  live = refl;
}

both-IsAddressed : IsAddressed 5 1 2 both
unfolding lookup new_server
both-IsAddressed = record { nonzero = omega arith; entered = refl; handled = refl }

play_takes_down_example :
    let w' : World = Playing.after_delete small app_named 5 1 play_first delete_two both in
    (w'.streams "first" ≡ none)
    × ((w'.media 0).closed ≡ true)
    × (w'.streams "second" ≡ both.streams "second")
unfolding new_server
play_takes_down_example =
    Playing.play_takes_down small app_named 5 1 play_first delete_two 0 both both-IsAddressed refl
      refl (λ e. different (sym e)) both-CanPlay

allocate_stream-Allocates_example :
    allocate_stream 5 9 start ≡ ok 2 (left_by (allocate_stream 5 9 start))
    × Allocates 5 9 2 start (left_by (allocate_stream 5 9 start))
allocate_stream-Allocates_example = allocate_stream-Allocates 5 9 start

abbrev connect_app : ConnectCommand small
connect_app = record { transaction_id = 1; properties = 7 }

abbrev connect_other : ConnectCommand small
connect_other = record { transaction_id = 1; properties = 8 }

on_command-connect_example :
    on_command {a = small} app_named 5 (Command.connect connect_app) start
    ≡ ok tt (connected 5 1 start)
unfolding new_server
on_command-connect_example = on_command-connect small app_named 5 connect_app start refl

refused :
    on_command {a = small} app_named 5 (Command.connect connect_other) start
    ≡ ok tt (closing 5 start)
unfolding new_server
refused = on_command-connect small app_named 5 connect_other start refl
