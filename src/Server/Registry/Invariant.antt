-- ===== src/Server/Registry/Invariant.antt =====
-- Every published name stands for one media stream of its own, which is open.
use Prim.Native.String.{String}
use text.Mathlib.TextEquality.{eq_iff}
use gortmp.Base.{ℕ, ◌+◌, ◌<◌, ◌≡◌, refl, Bool, true, false, Option, none, some, arith}
use gortmp.Base.{if◌then◌else◌}
use gortmp.Command.{PublishCommand}
use gortmp.Server.{
  World, Ending, Media, ok, failed, left_by, update, update_name, fail, publish_bad_name, ◌>>◌,
}
use gortmp.Server.Tables.{new_media, put_stream, del_stream, close_media}
use gortmp.Server.Streams.{server_publish, publish_placed, invoke_publish}
use gortmp.Server.Connection.{stop_publishing}
use gortmp.Server.Keeps.{Keeps}
use gortmp.Server.Registry.Frame.{On, Keeps-invoke_publish}

pub record IsRegistry (streams : String → Option ℕ) (media : ℕ → Media) (next : ℕ) : Type 0 where
  pub opened : (n : String) (m : ℕ) → streams n ≡ some m → (media m).closed ≡ false
  pub known : (n : String) (m : ℕ) → streams n ≡ some m → m < next
  pub single : (n n' : String) (m : ℕ) → streams n ≡ some m → streams n' ≡ some m → n ≡ n'

abbrev pub IsRegistered : World → Type 0
IsRegistered = On IsRegistry

-- The same, with a name that stands for `m`.
record IsPlaced (name : String) (m : ℕ) (streams : String → Option ℕ) (media : ℕ → Media) (next : ℕ)
    : Type 0 where
  registry : IsRegistry streams media next
  there : streams name ≡ some m

module _ (name : String) (streams : String → Option ℕ) (media : ℕ → Media) (next : ℕ) where
  unused-IsRegistry :
      (x y : Media)
      → IsRegistry streams media next
      → IsRegistry streams (update (update media next x) next y) (next + 1)
  unused-IsRegistry x y r = record {
    opened = λ n m e. ground (arith, r.opened n m e, r.known n m e);
    known = λ n m e. omega (arith, r.known n m e);
    single = r.single;
  }

  update_name-IsPlaced :
      (x : Media)
      → x.closed ≡ false
      → IsRegistry streams media next
      → IsPlaced name next (update_name streams name (some next)) (update media next x) (next + 1)
  update_name-IsPlaced x o r = record {
    registry = record {
      opened = λ n m e. ground (arith, r.opened n m, r.known n m, eq_iff name n);
      known = λ n m e. ground (arith, r.known n m, eq_iff name n);
      single = λ n n' m e e'.
          ground (arith, r.single n n' m, r.known n m, r.known n' m, eq_iff name n, eq_iff name n');
    };
    there = ground (arith, eq_iff name name);
  }

  undone-IsRegistry :
      (m : ℕ) (x : Media)
      → IsPlaced name m streams media next
      → IsRegistry (update_name streams name none) (update media m x) next
  undone-IsRegistry m x p = record {
    opened = λ n m' e.
        ground (arith, p.registry.opened n m', p.registry.single n name m', p.there, eq_iff name n);
    known = λ n m' e. ground (arith, p.registry.known n m', eq_iff name n);
    single =
        λ n n' m' e e'. ground (arith, p.registry.single n n' m', eq_iff name n, eq_iff name n');
  }

-- The world behind `NewMediaStream`, and with the media stream entered.
abbrev pub with_media : ℕ → World → World
with_media s w = record w {
  media = update w.media w.next_media (record { stream = s; closed = false });
  next_media = w.next_media + 1;
}

abbrev pub with_stream : ℕ → String → World → World
with_stream s name w = record (with_media s w) {
  streams = update_name w.streams name (some w.next_media);
}

pub server_publish_free :
    (s : ℕ) (cmd : PublishCommand) (w : World)
    → w.streams cmd.name ≡ none
    → server_publish s cmd w ≡ publish_placed s cmd w.next_media true (with_stream s cmd.name w)
unfolding server_publish new_media put_stream
server_publish_free s cmd w e = ground arith

pub server_publish_taken :
    (s : ℕ) (cmd : PublishCommand) (w : World) (m : ℕ)
    → w.streams cmd.name ≡ some m
    → server_publish s cmd w
      ≡ failed publish_bad_name (record (with_media s w) {
        media = update (with_media s w).media w.next_media (record { stream = s; closed = true });
      })
unfolding server_publish new_media put_stream publish_placed close_media
server_publish_taken s cmd w m e = ground (arith)

-- An ending of the callback, from a world where the name is placed.
finished-IsRegistered :
    (name : String) (m : ℕ) (e : Ending (Unit {0}))
    → On (IsPlaced name m) (left_by e)
    → IsRegistered (
        left_by (elim e as (λ _. Ending (Unit {0})) [
          | ok a w ↦ ok a w
          | failed f w ↦ (do del_stream name; close_media m; fail f) w
        ]))
unfolding del_stream close_media
finished-IsRegistered name m (ok a w) p = p.registry
finished-IsRegistered name m (failed f w) p =
    undone-IsRegistry name w.streams w.media w.next_media m (record (w.media m) { closed = true }) p

publish_placed-IsRegistered :
    (s : ℕ) (cmd : PublishCommand) (m : ℕ) (w : World)
    → On (IsPlaced cmd.name m) w
    → IsRegistered (left_by (publish_placed s cmd m true w))
unfolding publish_placed
publish_placed-IsRegistered s cmd m w p =
    finished-IsRegistered cmd.name m (invoke_publish s cmd w)
      ((Keeps-invoke_publish (IsPlaced cmd.name m) s cmd).keep w p)

server_publish-IsRegistered :
    (s : ℕ) (cmd : PublishCommand) (w : World) (x : Option ℕ)
    → w.streams cmd.name ≡ x
    → IsRegistered w
    → IsRegistered (left_by (server_publish s cmd w))
server_publish-IsRegistered s cmd w none e r = rw (server_publish_free s cmd w e) (
    publish_placed-IsRegistered s cmd w.next_media (with_stream s cmd.name w) (
      update_name-IsPlaced cmd.name w.streams w.media w.next_media
        (record { stream = s; closed = false }) refl r))
server_publish-IsRegistered s cmd w (some m) e r = rw (server_publish_taken s cmd w m e) (
    unused-IsRegistry cmd.name w.streams w.media w.next_media
      (record { stream = s; closed = false }) (record { stream = s; closed = true }) r)

pub Keeps-server_publish :
    (s : ℕ) (cmd : PublishCommand) → Keeps IsRegistered (server_publish s cmd)
Keeps-server_publish s cmd = record {
  keep = λ w r. server_publish-IsRegistered s cmd w (w.streams cmd.name) refl r;
}

stopped-IsRegistered :
    (name : String) (w : World) (x : Option ℕ)
    → w.streams name ≡ x
    → IsRegistered w
    → IsRegistered (
        left_by (elim x as (λ _. Ending (Unit {0})) [
          | none ↦ ok tt w
          | some m ↦ (do close_media m; del_stream name) w
        ]))
unfolding close_media del_stream
stopped-IsRegistered name w none e r = r
stopped-IsRegistered name w (some m) e r =
    undone-IsRegistry name w.streams w.media w.next_media m (record (w.media m) { closed = true })
      (record { registry = r; there = e })

-- `if b { … }`
left-if :
    (b : Bool) (e e' : Ending (Unit {0}))
    → IsRegistered (left_by e)
    → IsRegistered (left_by e')
    → IsRegistered (left_by (if b then e else e'))
left-if true e e' p p' = p
left-if false e e' p p' = p'

pub Keeps-stop_publishing : (s : ℕ) → Keeps IsRegistered (stop_publishing s)
unfolding stop_publishing
Keeps-stop_publishing s = record {
  keep = λ w r.
      left-if (w.stream s).publishing _ _
        (stopped-IsRegistered (w.stream s).name w (w.streams (w.stream s).name) refl r) r;
}
