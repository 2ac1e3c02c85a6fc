-- ===== src/Tests/ReaderRuns.antt =====
-- chunkstreamreader.go on concrete inputs.
use gortmp.Base.{arith, ◌+◌, [], ◌∷◌, length}
use gortmp.Reader.{Session, new_chunk_stream_reader, read_from}
use gortmp.Reader.Typed.{IsSession}
use gortmp.Reader.Typed.Run.{read_from-IsSession}
use gortmp.Reader.Progress.{Finished, read_from-Finished}

-- A message of three bytes in one chunk, and the beginning of another.
abbrev session : Session
session =
    new_chunk_stream_reader
      (3 ∷ 0 ∷ 0 ∷ 7 ∷ 0 ∷ 0 ∷ 3 ∷ 9 ∷ 1 ∷ 0 ∷ 0 ∷ 0 ∷ 21 ∷ 22 ∷ 23 ∷ 0xc3 ∷ 31 ∷ [])

read_from-Finished_example :
    Finished (session.source.n + length session.source.rest) (read_from session)
read_from-Finished_example = read_from-Finished session

session-IsSession : IsSession session
unfolding new_chunk_stream_reader
session-IsSession = record {
  chunk_size = omega arith;
  window_size = omega arith;
  streams = λ j. record { header = tt; time = omega arith; message = tt };
  input = (
    omega arith,
    (
      omega arith,
      (
        omega arith,
        (
          omega arith,
          (
            omega arith,
            (
              omega arith,
              (
                omega arith,
                (
                  omega arith,
                  (
                    omega arith,
                    (
                      omega arith,
                      (
                        omega arith,
                        (
                          omega arith,
                          (
                            omega arith,
                            (omega arith, (omega arith, (omega arith, (omega arith, tt)))),
                          ),
                        ),
                      ),
                    ),
                  ),
                ),
              ),
            ),
          ),
        ),
      ),
    ),
  );
  events = tt;
}

read_from-IsSession_example : IsSession (read_from session).1
read_from-IsSession_example = read_from-IsSession session session-IsSession
