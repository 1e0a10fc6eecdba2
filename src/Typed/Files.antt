-- ===== src/Typed/Files.antt =====
-- close.rs, fsync.rs, linkat.rs, nop.rs, openat.rs, symlink.rs, tee.rs, timeout.rs and truncate.rs of
-- lio/src/api/ops, on Linux.
use lio.Base.{
  ℕ, ℤ, ◌+◌, ◌%◌, ◌^◌, ◌==◌, ret, IoError, IoResult, ok, err, if◌then◌else◌, neg_part, pos_part,
}
use lio.Op.{Op, RawFd, Resource, Pointer, Duration}
use lio.Io.{TypedOp}
use lio.Typed.{unit_result, number_result, resource_result}

pub record Close : Type 0 where
  pub fd : RawFd

unfoldable pub close : TypedOp Close (IoResult (Unit {0}))
unfolding unit_result
close = record {
  into_op = λ t. ret (Op.close t.fd, t);
  extract_result = λ t res. ret (unit_result res);
}

pub record Fsync : Type 0 where
  pub res : Resource

unfoldable pub fsync : TypedOp Fsync (IoResult (Unit {0}))
unfolding unit_result
fsync = record {
  into_op = λ t. ret (Op.fsync t.res, t);
  extract_result = λ t res. ret (unit_result res);
}

pub record LinkAt : Type 0 where
  pub old_dir_res : Resource
  pub old_path : Pointer
  pub new_dir_res : Resource
  pub new_path : Pointer

unfoldable pub link_at : TypedOp LinkAt (IoResult (Unit {0}))
unfolding unit_result
link_at = record {
  into_op = λ t. ret (Op.link_at t.old_dir_res t.old_path t.new_dir_res t.new_path, t);
  extract_result = λ t res. ret (unit_result res);
}

pub record OpenAt : Type 0 where
  pub dir_res : Resource
  pub pathname : Pointer
  pub flags : ℤ

unfoldable pub open_at : TypedOp OpenAt (IoResult Resource)
unfolding resource_result
open_at = record {
  into_op = λ t. ret (Op.open_at t.dir_res t.pathname t.flags, t);
  extract_result = λ t res. ret (resource_result res);
}

pub record SymlinkAt : Type 0 where
  pub dir_res : Resource
  pub target : Pointer
  pub linkpath : Pointer

unfoldable pub symlink_at : TypedOp SymlinkAt (IoResult (Unit {0}))
unfolding unit_result
symlink_at = record {
  into_op = λ t. ret (Op.symlink_at t.dir_res t.target t.linkpath, t);
  extract_result = λ t res. ret (unit_result res);
}

pub record Tee : Type 0 where
  pub res_in : Resource
  pub res_out : Resource
  pub size : ℕ

unfoldable pub tee : TypedOp Tee (IoResult ℤ)
unfolding number_result
tee = record {
  into_op = λ t. ret (Op.tee t.res_in t.res_out t.size, t);
  extract_result = λ t res. ret (number_result res);
}

pub record Truncate : Type 0 where
  pub res : Resource
  pub size : ℕ

unfoldable pub truncate : TypedOp Truncate (IoResult (Unit {0}))
unfolding unit_result
truncate = record {
  into_op = λ t. ret (Op.truncate t.res t.size, t);
  extract_result = λ t res. ret (unit_result res);
}

-- The struct `Nop` has no field.
unfoldable pub nop : TypedOp (Unit {0}) (IoResult (Unit {0}))
unfolding unit_result
nop = record { into_op = λ t. ret (Op.nop, t); extract_result = λ t res. ret (unit_result res) }

-- `timespec_at` is the address of the field `timespec`.
pub record Timeout : Type 0 where
  pub duration : Duration
  pub timer_res : Resource
  pub timespec_at : Pointer

-- `ETIME`.
abbrev pub etime : ℕ
etime = 62

-- `last_os_error` is the errno of the thread when the result is extracted.
unfoldable pub timeout : IoError → TypedOp Timeout (IoResult (Unit {0}))
timeout last_os_error = record {
  into_op = λ t. ret (Op.timeout t.duration t.timer_res t.timespec_at, t);
  extract_result = λ t res.
      if pos_part res + neg_part res == 0
      then ret (ok tt)
      else if (pos_part res + neg_part res) % 2 ^ 32 == etime
      then ret (ok tt)
      else ret (err last_os_error);
}
