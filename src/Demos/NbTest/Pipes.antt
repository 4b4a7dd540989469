-- ===== src/Demos/NbTest/Pipes.antt =====
-- nbtest.c with a pipe of scull/pipe.c at its input and another at its output: the calls of the
-- interface are scull_p_read and scull_p_write, and their theorems are its laws.
use ldd.Common.{ℕ, ◌≡◌, refl, ◌∙◌, false, true, List, [], ◌++◌, length, append-nil, ok, err, eagain}
use ldd.Common.User.{UserCopy}
use ldd.Pipe.{Pipe, Filp, Reply, returns, sleeps, scull_p_read, scull_p_write}
use ldd.Pipe.Contents.{contents}
use ldd.Pipe.Blocking.{IsIdle}
use ldd.Pipe.Blocking.Reads.{scull_p_read-IsIdle}
use ldd.Pipe.Blocking.Writes.{scull_p_write-WriteOutcome}
use ldd.Pipe.Fifo.{accepted, delivered, read-fifo, write-fifo}
use ldd.Demos.NbTest.{
  Answer, done, fails, Took, some_bytes, no_bytes, Put, some_put, none_put, Calls,
}

-- The two pipes.
pub record Ends : Type 0 where
  pub input : Pipe
  pub output : Pipe
  pub input_idle : IsIdle input
  pub output_idle : IsIdle output

-- Open for both, with O_NONBLOCK.
abbrev nonblocking : Filp
nonblocking = record { fmode_read = true; fmode_write = true; nonblock = true }

-- A call on a file with O_NONBLOCK never sleeps.
abbrev read_answer : Reply → List ℕ → Answer (List ℕ)
read_answer (returns (ok n)) bytes = done bytes
read_answer (returns (err e)) bytes = fails e
read_answer sleeps bytes = fails eagain

abbrev write_answer : Reply → Answer ℕ
write_answer (returns (ok m)) = done m
write_answer (returns (err e)) = fails e
write_answer sleeps = fails eagain

pub read_answer-Took :
    (source sink left : List ℕ) (reply : Reply) (bytes : List ℕ)
    → delivered bytes reply ++ left ≡ source
    → Took source sink left sink (read_answer reply bytes)
read_answer-Took source sink left (returns (ok n)) bytes h = some_bytes bytes h refl
read_answer-Took source sink left (returns (err e)) bytes h = no_bytes e h refl
read_answer-Took source sink left sleeps bytes h = no_bytes eagain h refl

pub write_answer-Put :
    (bytes source sink behind : List ℕ) (reply : Reply)
    → behind ≡ sink ++ accepted bytes reply
    → Put bytes source sink source behind (write_answer reply)
write_answer-Put bytes source sink behind (returns (ok m)) h = some_put m refl h
write_answer-Put bytes source sink behind (returns (err e)) h =
    none_put e refl (h ∙ append-nil sink)
write_answer-Put bytes source sink behind sleeps h = none_put eagain refl (h ∙ append-nil sink)

module _ (u : UserCopy) where
  abbrev read_pipe : Ends → Answer (List ℕ) × Ends
  read_pipe s =
      let (reply, bytes, p) = scull_p_read u s.input nonblocking 4096 false [] in
      (
        read_answer reply bytes,
        record s {
          input = p;
          input_idle = scull_p_read-IsIdle u nonblocking 4096 [] tt false s.input_idle;
        },
      )

  abbrev write_pipe : List ℕ → Ends → Answer ℕ × Ends
  write_pipe bytes s =
      let (reply, q) = scull_p_write u s.output nonblocking bytes (length bytes) false [] in
      (
        write_answer reply,
        record s {
          output = q;
          output_idle =
              (scull_p_write-WriteOutcome u nonblocking bytes (length bytes) [] false tt
                s.output_idle).1;
        },
      )

  abbrev pub pipes : Calls Ends
  pipes = record {
    read = read_pipe;
    write = write_pipe;
    source = λ s. contents s.input;
    sink = λ s. contents s.output;
    reads = λ s.
        let r = scull_p_read u s.input nonblocking 4096 false [] in
        read_answer-Took (contents s.input) (contents s.output) (contents r.2) r.0 r.1
          (read-fifo u s.input nonblocking 4096 false s.input_idle);
    writes = λ bytes s.
        let r = scull_p_write u s.output nonblocking bytes (length bytes) false [] in
        write_answer-Put bytes (contents s.input) (contents s.output) (contents r.1) r.0
          (write-fifo u s.output nonblocking bytes (length bytes) false s.output_idle);
  }
