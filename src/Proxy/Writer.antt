-- ===== src/Proxy/Writer.antt =====
-- loggingResponseWriter of internal/server/http_proxy.go: the status and the size of a response, as the
-- request log sees them. What the handler does with the writer is a list of calls.
use htn_tunnel.Prelude.{ℕ, ◌+◌, ◌≡◌, List, [], ◌∷◌, nat_beq, if◌then◌else◌, arith}

-- A call of WriteHeader with its code, or of Write with the number of bytes the connection took.
pub data WriterOp : Type 0 where
  write_header : ℕ → WriterOp
  write : ℕ → WriterOp

pub record LoggingResponseWriter : Type 0 where
  pub status : ℕ
  pub size : ℕ

-- &loggingResponseWriter{ResponseWriter: w}
abbrev pub new_writer : LoggingResponseWriter
new_writer = record { status = 0; size = 0 }

unfoldable pub writer_step : WriterOp → LoggingResponseWriter → LoggingResponseWriter
writer_step (write_header code) w = record w { status = code }
writer_step (write n) w = record {
  status = if nat_beq w.status 0 then 200 else w.status;
  size = w.size + n;
}

unfoldable pub run_writer : List WriterOp → LoggingResponseWriter → LoggingResponseWriter
run_writer [] w = w
run_writer (op ∷ ops) w = run_writer ops (writer_step op w)

-- The bytes of a response.
unfoldable pub bytes_written : List WriterOp → ℕ
bytes_written [] = 0
bytes_written (write_header _ ∷ ops) = bytes_written ops
bytes_written (write n ∷ ops) = n + bytes_written ops

pub size-run_writer :
    (ops : List WriterOp) (w : LoggingResponseWriter)
    → (run_writer ops w).size ≡ w.size + bytes_written ops
unfolding run_writer writer_step bytes_written
size-run_writer [] w = omega arith
size-run_writer (write_header code ∷ ops) w = size-run_writer ops (record w { status = code })
size-run_writer (write n ∷ ops) w = omega (arith, size-run_writer ops (writer_step (write n) w))
