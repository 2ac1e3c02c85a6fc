-- ===== src/Server/Tables.antt =====
-- server.go: the tables of media streams and players, each behind its lock; media streams and
-- players themselves as the server uses them.
use Prim.Native.String.{String}
use gortmp.Base.{ℕ, ◌+◌, Bool, true, false, none, some}
use gortmp.Server.{Act, update, update_name, play_failed, ok, failed}
use gortmp.Server.{modify}

-- `NewMediaStream`
unfoldable pub new_media : ℕ → Act ℕ
new_media s w = ok w.next_media (record w {
  media = update w.media w.next_media (record { stream = s; closed = false });
  next_media = w.next_media + 1;
})

-- `mediaStream.Close`; a second one does nothing.
unfoldable pub close_media : ℕ → Act (Unit {0})
close_media m =
    modify (λ w. record w { media = update w.media m (record (w.media m) { closed = true }) })

unfoldable pub put_stream : String → ℕ → Act Bool
put_stream name m w = elim (w.streams name) [
  | none ↦ ok true (record w { streams = update_name w.streams name (some m) })
  | some _ ↦ ok false w
]

unfoldable pub del_stream : String → Act (Unit {0})
del_stream name = modify (λ w. record w { streams = update_name w.streams name none })

unfoldable pub put_player : ℕ → ℕ → Act Bool
put_player s p w = elim (w.players s) [
  | none ↦ ok true (record w { players = update w.players s (some p) })
  | some _ ↦ ok false w
]

unfoldable pub del_player : ℕ → Act (Unit {0})
del_player s = modify (λ w. record w { players = update w.players s none })

-- `NewMediaPlayer`: the media buffer subscribes, which a closed media stream refuses.
unfoldable pub new_player : ℕ → ℕ → Act ℕ
new_player m s w = elim ((w.media m).closed) [
  | true ↦ failed play_failed w
  | false ↦ ok w.next_player (record w {
    player =
        update w.player w.next_player
          (record { stream = s; source = m; started = false; closed = false; finished = false });
    next_player = w.next_player + 1;
  })
]

-- `mediaPlayer.Start` and `mediaPlayer.Close`, which unsubscribes.
unfoldable pub start_player : ℕ → Act (Unit {0})
start_player p =
    modify (λ w. record w { player = update w.player p (record (w.player p) { started = true }) })

unfoldable pub close_player : ℕ → Act (Unit {0})
close_player p =
    modify (λ w. record w { player = update w.player p (record (w.player p) { closed = true }) })
