-- ===== src/IoUring/OneShot.antt =====
-- lio/src/backends/impls/io_uring.rs and lio-uring/src/lib.rs: the entries that the backend writes
-- ask for one completion each.
use lio.Base.{ℕ, ◌≡◌, refl, Bool, true, ret, ok, err, would_block, if◌then◌else◌}
use lio.Op.{Op}
use lio.Uring.{Liburing}
use lio.Uring.Entries.{Sqe}
use lio.IoUring.{IoUring, create_io_uring_entry, push}
use lio.IoUring.Submission.{push-write_sqe}

-- The kernel answers the entry once, by itself, and under the key: no bit asks for a multishot or a
-- bundled transfer, a registered buffer, a buffer of a group, a link, a drain or silence.
pub record IsOneShot (key : ℕ) (entry : Sqe) : Type 0 where
  pub keyed : entry.user_data ≡ key
  pub unflagged : entry.flags ≡ 0
  pub single : entry.ioprio ≡ 0
  pub own_buffer : entry.buf ≡ 0

ungrouped :
    (op : Op) → ((create_io_uring_entry op).ioprio ≡ 0) × ((create_io_uring_entry op).buf ≡ 0)
unfolding create_io_uring_entry
ungrouped Op.nop = (refl, refl)
ungrouped (Op.read fd b) = (refl, refl)
ungrouped (Op.write fd b) = (refl, refl)
ungrouped (Op.read_at fd offset b) = (refl, refl)
ungrouped (Op.write_at fd offset b) = (refl, refl)
ungrouped (Op.send fd flags b) = (refl, refl)
ungrouped (Op.recv fd flags b) = (refl, refl)
ungrouped (Op.accept fd addr len) = (refl, refl)
ungrouped (Op.connect fd addr len called) = (refl, refl)
ungrouped (Op.bind fd addr addrlen) = (refl, refl)
ungrouped (Op.listen fd backlog) = (refl, refl)
ungrouped (Op.shutdown fd how) = (refl, refl)
ungrouped (Op.socket domain ty proto) = (refl, refl)
ungrouped (Op.open_at dir_fd path flags) = (refl, refl)
ungrouped (Op.close fd) = (refl, refl)
ungrouped (Op.fsync fd) = (refl, refl)
ungrouped (Op.truncate fd size) = (refl, refl)
ungrouped (Op.link_at old_dir_fd old_path new_dir_fd new_path) = (refl, refl)
ungrouped (Op.symlink_at dir_fd target linkpath) = (refl, refl)
ungrouped (Op.tee fd_in fd_out size) = (refl, refl)
ungrouped (Op.timeout duration timer_fd timespec) = (refl, refl)

-- With its ring, a push whose queue has a slot succeeds, leaves the backend as it is and writes one
-- entry, which is one-shot and carries the operation's key, whatever the operation is; a push whose
-- queue is full reports that it would block and writes nothing.
pub push-IsOneShot :
    {K : Type 0} (lib : Liburing K) (id : ℕ) (op : Op) (b : IoUring) (k k' : K) (found : Bool)
    → b.ring ≡ true
    → lib.get_sqe k ≡ (found, k')
    → (entry : Sqe) × IsOneShot id entry
      × (push lib id op (b, k) ≡ (
          if found
          then ret (ok tt, (b, lib.write_sqe entry k'))
          else ret (err would_block, (b, k'))))
push-IsOneShot lib id op b k k' found on e =
    let (single, own_buffer) = ungrouped op in
    (
      record (create_io_uring_entry op) { user_data = id; flags = 0 },
      record { keyed = refl; unflagged = refl; single = single; own_buffer = own_buffer },
      push-write_sqe lib id op b k k' found on e,
    )
