-- ===== src/Reader/Progress.antt =====
-- Every chunk takes at least a byte of the input, so the loop of `ReadFrom` ends on every input.
use gortmp.Base.{ℕ, zero, suc, ◌+◌, ◌≤◌, ◌<◌, ◌≡◌, refl, inl, ◌⊎◌, arith}
use gortmp.Base.{[], Option, some, none, Bool, true, false, length, leb}
use gortmp.Base.{◌==◌, if◌then◌else◌, length-drop, length-take, drop_all, subst}
use gortmp.Wire.{read_byte, Source, Outcome, Error, ok, err, eof, unexpected_eof, out_of_range}
use gortmp.Wire.{invalid_chunk_header}
use gortmp.Wire.Takes.{Took, took, ended}
use gortmp.Message.{Message}
use gortmp.Header.{Header, zero_header}
use gortmp.Header.{read_base_header}
use gortmp.Header.Input.{read_base_header-Takes, read_header-Takes}
use gortmp.Reader.{Session, InChunkStream, Chunk, read_chunk, read_message_header, read_payload}
use gortmp.Reader.{finish, handle_message, complete, read_loop, read_from, check_window, stream_at}
use gortmp.Reader.{set_stream, copied, interrupted}

-- The errors that end the reading: the input is at its end, or it is refused.
pub data Ending (t : Session) : Error → Type 0 where
  at_end : (e : Error) → (e ≡ eof) ⊎ (e ≡ unexpected_eof) → t.source.rest ≡ [] → Ending t e
  no_header : Ending t invalid_chunk_header
  panicked : Ending t out_of_range

-- What a call did with `size` bytes of input, of which `n` were counted before: it took as many as
-- it counted, at least `lo`; or it failed, and counted no more than there were.
pub data Progress (lo n size : ℕ) : Outcome Session (Unit {0}) → Type 0 where
  moved :
      (t : Session)
      → t.source.n + length t.source.rest ≡ n + size
      → n + lo ≤ t.source.n
      → Progress lo n size (ok tt t)
  over :
      (e : Error) (t : Session) → Ending t e → t.source.n ≤ n + size → Progress lo n size (err e t)

handle_message-Progress :
    (msg : Message) (s : Session)
    → Progress 0 s.source.n (length s.source.rest) (handle_message msg s)
unfolding handle_message
handle_message-Progress msg s =
    Progress-if (msg.chunk_stream_id == 2)
      (Progress-if (msg.type == 1)
        (Progress-if (leb 4 (length msg.buf)) (moved _ refl (omega arith)) panic)
        (Progress-if (msg.type == 5)
          (Progress-if (leb 4 (length msg.buf)) (moved _ refl (omega arith)) panic)
          (moved _ refl (omega arith))))
      (moved _ refl (omega arith))
  where
    Progress-if :
        (b : Bool) {lo n size : ℕ} {o o' : Outcome Session (Unit {0})}
        → Progress lo n size o
        → Progress lo n size o'
        → Progress lo n size (if b then o else o')
    Progress-if true p q = p
    Progress-if false p q = q

    panic : Progress 0 s.source.n (length s.source.rest) (err out_of_range s)
    panic = over out_of_range s panicked (omega arith)

handled :
    (csi : ℕ) (cs : InChunkStream) {lo n size : ℕ} {o : Outcome Session (Unit {0})}
    → Progress lo n size o
    → Progress lo n size (elim o [ ok _ t ↦ ok tt (set_stream csi cs t) | err e t ↦ err e t ])
handled csi cs (moved t e l) = moved (set_stream csi cs t) e l
handled csi cs (over x t k l) = over x t k l

finish-Progress :
    (csi : ℕ) (cs : InChunkStream) (msg : Message) (last : Bool) (s : Session)
    → Progress 0 s.source.n (length s.source.rest) (finish csi cs msg last s)
unfolding finish
finish-Progress csi cs msg true s =
    handled csi (record cs { current_message = none }) (handle_message-Progress msg s)
finish-Progress csi cs msg false s = moved _ refl (omega arith)

-- More was taken before.
before_that :
    {lo n size n' size' : ℕ} {o : Outcome Session (Unit {0})}
    → n' + size' ≡ n + size
    → n + lo ≤ n'
    → Progress 0 n' size' o
    → Progress lo n size o
before_that e h (moved t q l) = moved t (omega arith) (omega arith)
before_that e h (over x t k l) = over x t k (omega arith)

copied_count :
    (n : ℕ) (src : Source) → (copied n src).n + length (copied n src).rest ≡ src.n + length src.rest
copied_count n src = omega (arith, length-take n src.rest, length-drop n src.rest)

payload_cases :
    (csi : ℕ) (stream : InChunkStream) (c : Chunk) (msg : Message) (last : Bool) (n : ℕ)
    (s t : Session) (enough : Bool)
    → leb n (length s.source.rest) ≡ enough
    → t.source ≡ copied n s.source
    → Progress 0 s.source.n (length s.source.rest) (
        if enough
        then finish csi stream msg last t
        else err eof (set_stream csi (interrupted stream c msg) t))
payload_cases csi stream c msg last n s t true e q =
    before_that (rw q (copied_count n s.source)) (rw q (omega arith))
      (finish-Progress csi stream msg last t)
payload_cases csi stream c msg last n s t false e q =
    over eof _ (at_end eof (inl refl) (rw q (drop_all n s.source.rest (ground arith))))
      (rw q (omega (arith, copied_count n s.source)))

read_payload-Progress :
    (csi : ℕ) (cs : InChunkStream) (c : Chunk) (s : Session)
    → Progress 0 s.source.n (length s.source.rest) (read_payload csi cs c s)
unfolding read_payload
read_payload-Progress csi cs c s = payload_cases csi _ c _ _ _ s _ _ refl refl

completed_chunk :
    (csi : ℕ) (cs : InChunkStream) (t : Session) (o : Option Chunk)
    → Progress 0 t.source.n (length t.source.rest) (elim o as (λ _. Outcome Session (Unit {0})) [
      | none ↦ err invalid_chunk_header t
      | some c ↦ read_payload csi cs c t
    ])
completed_chunk csi cs t none = over invalid_chunk_header t no_header (omega arith)
completed_chunk csi cs t (some c) = read_payload-Progress csi cs c t

header_read :
    (csi : ℕ) (cs : InChunkStream) (s t : Session) {o : Outcome Source Header}
    → Took 0 s.source o
    → Progress 0 s.source.n (length s.source.rest) (elim o as (λ _. Outcome Session (Unit {0})) [
      | err e src ↦ err e (record t { source = record src { n = s.source.n } })
      | ok header src ↦ elim (complete cs header) [
        | none ↦ err invalid_chunk_header (record t { source = src })
        | some c ↦ read_payload csi cs c (record t { source = src })
      ]
    ])
header_read csi cs s t (took h src e l) =
    before_that e l (completed_chunk csi cs (record t { source = src }) (complete cs h))
header_read csi cs s t (ended e src k r l h) = over e _ (at_end e k r) (omega arith)

read_message_header-Progress :
    (vfmt csi : ℕ) (s : Session)
    → Progress 0 s.source.n (length s.source.rest) (read_message_header vfmt csi s)
unfolding read_message_header
read_message_header-Progress vfmt csi s =
    let cs = stream_at s.chunk_streams csi in
    header_read csi cs s (set_stream csi cs s)
      (read_header-Takes zero_header vfmt csi cs.last_header s.source)

base_read :
    (s : Session) {o : Outcome Source (ℕ × ℕ)}
    → Took 1 s.source o
    → Progress 1 s.source.n (length s.source.rest) (elim o as (λ _. Outcome Session (Unit {0})) [
      | err e src ↦ err e (record s { source = src })
      | ok (vfmt, csi) src ↦ read_message_header vfmt csi (record s { source = src })
    ])
base_read s (took (vfmt, csi) src e l) =
    before_that e l (read_message_header-Progress vfmt csi (record s { source = src }))
base_read s (ended e src k r l h) = over e _ (at_end e k r) h

-- For every state of the reader and every input, `readChunk` either takes at least one byte and
-- counts exactly the bytes it took; or it fails at the end of the input, with an invalid header or
-- by a panic, and has counted no more bytes than there were.
pub read_chunk-Progress :
    (s : Session) → Progress 1 s.source.n (length s.source.rest) (read_chunk s)
unfolding read_chunk
read_chunk-Progress s = base_read s (read_base_header-Takes s.source)

pub window_source : (before : ℕ) (s : Session) → (check_window before s).0.source ≡ s.source
unfolding check_window
window_source before s = ground arith

-- How a run over `total` bytes ended.
abbrev pub Finished : ℕ → Error × Session → Type 0
Finished total r = Ending r.1 r.0 × (r.1.source.n ≤ total)

next_round :
    (f before : ℕ) {n size : ℕ} {o : Outcome Session (Unit {0})}
    → Progress 1 n size o
    → ((t : Session) (before' : ℕ)
        → t.source.n + length t.source.rest ≡ n + size
        → length t.source.rest < size
        → Finished (n + size) (read_loop f before' t))
    → Finished (n + size) (elim o as (λ _. Error × Session) [
      | err e t ↦ (e, t)
      | ok _ t ↦ read_loop f (check_window before t).1 (check_window before t).0
    ])
next_round f before (moved t e l) again =
    again (check_window before t).0 (check_window before t).1 (rw (window_source before t) e)
      (rw (window_source before t) (omega arith))
next_round f before (over x t k l) again = (k, l)

read_loop-Finished :
    (f before : ℕ) (s : Session)
    → length s.source.rest < f
    → Finished (s.source.n + length s.source.rest) (read_loop f before s)
unfolding read_loop
read_loop-Finished zero before s h = absurd (omega arith)
read_loop-Finished (suc f) before s h =
    next_round f before (read_chunk-Progress s) (λ t before' e l.
      subst (λ total. Finished total (read_loop f before' t)) e
        (read_loop-Finished f before' t (omega arith)))

-- For every state of the reader and every input, `ReadFrom` returns: at the end of the input, with
-- nothing left, with an invalid header or by a panic, and the count that it returns is at most the
-- bytes counted before and those of the input.
pub read_from-Finished : (s : Session) → Finished (s.source.n + length s.source.rest) (read_from s)
unfolding read_from
read_from-Finished s = read_loop-Finished (suc (length s.source.rest)) 0 s (omega arith)

at_the_end : (src : Source) → src.rest ≡ [] → read_base_header src ≡ err eof src
unfolding read_base_header read_byte
at_the_end src e = rw e refl

ended_chunk : (s : Session) → s.source.rest ≡ [] → read_chunk s ≡ err eof s
unfolding read_chunk
ended_chunk s e = rw (at_the_end s.source e, read_chunk) refl

-- A reader whose input has ended.
pub read_loop-empty :
    (f before : ℕ) (s : Session) → s.source.rest ≡ [] → read_loop (suc f) before s ≡ (eof, s)
unfolding read_loop
read_loop-empty f before s e = rw (ended_chunk s e, read_loop) refl
