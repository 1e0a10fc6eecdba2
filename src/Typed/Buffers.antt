-- ===== src/Typed/Buffers.antt =====
-- read.rs, read_at.rs, recv.rs, send.rs, write.rs and write_at.rs of lio/src/api/ops.
use lio.Base.{ℤ, pos, Option, none, some, ret, ◌>>=◌, IoResult}
use lio.Op.{Op, Resource}
use lio.Io.{TypedOp}
use lio.Typed.{BufLike, raw_buf, buf_result}

pub record Read (B : Type 0) : Type 0 where
  pub res : Resource
  pub buf : Option B

pub record ReadAt (B : Type 0) : Type 0 where
  pub res : Resource
  pub buf : Option B
  pub offset : ℤ

pub record Recv (B : Type 0) : Type 0 where
  pub res : Resource
  pub buf : Option B
  pub flags : ℤ

pub record Send (B : Type 0) : Type 0 where
  pub res : Resource
  pub buf : Option B
  pub flags : ℤ

pub record Write (B : Type 0) : Type 0 where
  pub res : Resource
  pub buf : Option B

pub record WriteAt (B : Type 0) : Type 0 where
  pub res : Resource
  pub buf : Option B
  pub offset : ℤ

module _ {B : Type 0} where
  unfoldable pub new_read : Resource → B → Read B
  new_read res mem = record { res = res; buf = some mem }

  unfoldable pub new_read_at : Resource → B → ℤ → ReadAt B
  new_read_at res mem offset = record { res = res; buf = some mem; offset = offset }

  unfoldable pub new_recv : Resource → B → Option ℤ → Recv B
  new_recv res buf flags = record {
    res = res;
    buf = some buf;
    flags = elim flags [ none ↦ pos 0 | some f ↦ f ];
  }

  unfoldable pub new_send : Resource → B → Option ℤ → Send B
  new_send res buf flags = record {
    res = res;
    buf = some buf;
    flags = elim flags [ none ↦ pos 0 | some f ↦ f ];
  }

  unfoldable pub new_write : Resource → B → Write B
  new_write res mem = record { res = res; buf = some mem }

  unfoldable pub new_write_at : Resource → B → ℤ → WriteAt B
  new_write_at res mem offset = record { res = res; buf = some mem; offset = offset }

module _ {B : Type 0} (buflike : BufLike B) where
  unfoldable pub read : TypedOp (Read B) (IoResult ℤ × B)
  unfolding raw_buf buf_result
  read = record {
    into_op = λ t. raw_buf buflike t.buf >>= λ buffer. ret (Op.read t.res buffer, t);
    extract_result = λ t res. buf_result buflike t.buf res;
  }

  unfoldable pub read_at : TypedOp (ReadAt B) (IoResult ℤ × B)
  unfolding raw_buf buf_result
  read_at = record {
    into_op = λ t. raw_buf buflike t.buf >>= λ buffer. ret (Op.read_at t.res t.offset buffer, t);
    extract_result = λ t res. buf_result buflike t.buf res;
  }

  unfoldable pub recv : TypedOp (Recv B) (IoResult ℤ × B)
  unfolding raw_buf buf_result
  recv = record {
    into_op = λ t. raw_buf buflike t.buf >>= λ buffer. ret (Op.recv t.res t.flags buffer, t);
    extract_result = λ t res. buf_result buflike t.buf res;
  }

  unfoldable pub send : TypedOp (Send B) (IoResult ℤ × B)
  unfolding raw_buf buf_result
  send = record {
    into_op = λ t. raw_buf buflike t.buf >>= λ buffer. ret (Op.send t.res t.flags buffer, t);
    extract_result = λ t res. buf_result buflike t.buf res;
  }

  unfoldable pub write : TypedOp (Write B) (IoResult ℤ × B)
  unfolding raw_buf buf_result
  write = record {
    into_op = λ t. raw_buf buflike t.buf >>= λ buffer. ret (Op.write t.res buffer, t);
    extract_result = λ t res. buf_result buflike t.buf res;
  }

  unfoldable pub write_at : TypedOp (WriteAt B) (IoResult ℤ × B)
  unfolding raw_buf buf_result
  write_at = record {
    into_op = λ t. raw_buf buflike t.buf >>= λ buffer. ret (Op.write_at t.res t.offset buffer, t);
    extract_result = λ t res. buf_result buflike t.buf res;
  }
