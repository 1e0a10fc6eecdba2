-- ===== src/Ffi/Codes.antt =====
-- The codes that the C callbacks are given.
use lio.Base.{
  ℕ, ◌-◌, ◌<◌, ◌≤◌, ◌%◌, ◌^◌, ◌≡◌, refl, ap, Bool, true, false, ◌||◌, ◌>>=◌, some, ltb, arith,
  Option, none, suc, ℤ, pos, negsuc, neg, is_neg, neg_part, pos_part, ret, ok, if◌then◌else◌,
}
use lio.Op.{Pointer}
use lio.Net.{SocketAddr, libc_socketaddr_into_std, std_socketaddr_into_libc}
use lio.Poller.{as_i32}
use lio.Typed.{Vec, vec, unit_result, number_result, resource_result, raw_os_error, buf_result}
use lio.Typed.Files
use lio.Typed.Sockets.{Accept}
use lio.Typed.Sockets
use lio.Typed.Buffers
use lio.Ffi.{
  Task, shutdown, fsync, truncate, write_at, read_at, socket, bind, accept, listen, send, recv,
  close, timeout, Call, code, buffer, accepted, Outside, answer, error_code, unit_code, number_code,
  buffer_call, accepted_call,
}

-- The arguments of a call: the callback, the code, and where a buffer is.
abbrev pub Given : Type 0
Given = Pointer × ℤ × Option Pointer

abbrev pub given : Call → Given
given (code cb r) = (cb, r, none)
given (buffer cb r ptr len) = (cb, r, some ptr)
given (accepted cb r addr) = (cb, r, none)

-- A result that an `int` can hold.
abbrev pub IsCode : ℤ → Type 0
IsCode res = (neg_part res ≤ 2 ^ 31) × (pos_part res < 2 ^ 31)

-- An operation that has its buffer `v`, or whose address of a peer is of a known family. A timeout is
-- left out: when it fails it does not tell its result, but the thread's last error.
abbrev pub IsReady : Outside → Task → Option Vec → Type 0
IsReady out (write_at t) v = (t.buf ≡ v) × ((w : Vec) × (v ≡ some w))
IsReady out (read_at t) v = (t.buf ≡ v) × ((w : Vec) × (v ≡ some w))
IsReady out (send t) v = (t.buf ≡ v) × ((w : Vec) × (v ≡ some w))
IsReady out (recv t) v = (t.buf ≡ v) × ((w : Vec) × (v ≡ some w))
IsReady out (accept t) v =
    (v ≡ none) × (a : SocketAddr) × (libc_socketaddr_into_std out.little out.written ≡ ok a)
IsReady out (timeout t) v = ⊥
IsReady out task v = v ≡ none

-- Whether the C program is told a number, and not only that the operation succeeded.
abbrev pub tells_number : Task → Bool
tells_number (write_at t) = true
tells_number (read_at t) = true
tells_number (send t) = true
tells_number (recv t) = true
tells_number (accept t) = true
tells_number (socket t) = true
tells_number task = false

as_i32-small : (n : ℕ) → n < 2 ^ 31 → as_i32 n ≡ pos n
as_i32-small n small = ground (arith, small)

as_i32-negated : (n m : ℕ) → n < 2 ^ 31 → m ≡ 2 ^ 32 - suc n → as_i32 m ≡ negsuc n
as_i32-negated n m small e =
    let big : ltb (m % 2 ^ 32) (2 ^ 31) ≡ false = ground (arith, small, e) in
    let back : 2 ^ 32 - m % 2 ^ 32 ≡ suc n = omega (arith, small, e) in rw big (ap neg back)

error_code-raw_os_error : (n : ℕ) → n < 2 ^ 31 → error_code (raw_os_error (negsuc n)) ≡ negsuc n
unfolding error_code
error_code-raw_os_error n small =
    as_i32-negated n (2 ^ 32 - suc n % 2 ^ 32 % 2 ^ 32) small (omega (arith, small))

number_code-number_result : (res : ℤ) → IsCode res → number_code (number_result res) ≡ res
unfolding number_code number_result
number_code-number_result (pos n) h = as_i32-small n h.1
number_code-number_result (negsuc n) h = error_code-raw_os_error n (omega (arith, h.0))

unit_code-unit_result :
    (res : ℤ) → IsCode res → unit_code (unit_result res) ≡ (if is_neg res then res else pos 0)
unfolding unit_code unit_result
unit_code-unit_result (pos n) h = refl
unit_code-unit_result (negsuc n) h = error_code-raw_os_error n (omega (arith, h.0))

abbrev pub address : Option Vec → Option Pointer
address none = none
address (some w) = some w.ptr

-- What a callback is to be given.
abbrev pub expected : Task → Pointer → ℤ → Option Vec → Given
expected task cb res v = (cb, (if is_neg res || tells_number task then res else pos 0), address v)

success_given :
    (task : Task) (cb : Pointer) (res : ℤ) (v : Option Vec)
    → IsCode res
    → tells_number task ≡ false
    → v ≡ none
    → given (code cb (unit_code (unit_result res))) ≡ expected task cb res v
success_given task cb (pos n) v h number e =
    ground (arith, number, e, unit_code-unit_result (pos n) h)
success_given task cb (negsuc n) v h number e =
    ground (arith, number, e, unit_code-unit_result (negsuc n) h)

number_given :
    (task : Task) (cb : Pointer) (res : ℤ) (v : Option Vec)
    → IsCode res
    → tells_number task ≡ true
    → v ≡ none
    → given (code cb (number_code (number_result res))) ≡ expected task cb res v
number_given task cb (pos n) v h number e =
    ground (arith, number, e, number_code-number_result (pos n) h)
number_given task cb (negsuc n) v h number e =
    ground (arith, number, e, number_code-number_result (negsuc n) h)

peer_given :
    (out : Outside) (t : Accept) (cb : Pointer) (res : ℤ) (v : Option Vec)
    → IsCode res
    → IsReady out (accept t) v
    → (call : Call) × (answer out (accept t) cb res ≡ ret call)
      × (given call ≡ expected (accept t) cb res v)
unfolding answer Sockets.accept accepted_call
peer_given out t cb (pos n) v h (e, a, known) = (
  accepted cb (as_i32 n) (some (std_socketaddr_into_libc out.little a)),
  ground (arith, known),
  ground (arith, e, as_i32-small n h.1),
)
peer_given out t cb (negsuc n) v h (e, a, known) = (
  accepted cb (error_code (raw_os_error (negsuc n))) none,
  refl,
  ground (arith, e, error_code-raw_os_error n (omega (arith, h.0))),
)

buffer_given :
    (task : Task) (cb : Pointer) (res : ℤ) (buf v : Option Vec)
    → IsCode res
    → tells_number task ≡ true
    → (buf ≡ v) × ((w : Vec) × (v ≡ some w))
    → (call : Call) × ((buf_result vec buf res >>= λ r. ret (buffer_call cb r)) ≡ ret call)
      × (given call ≡ expected task cb res v)
unfolding buffer_call buf_result vec number_code
buffer_given task cb (pos n) buf v h number (kept, (w, is)) = (
  buffer cb (as_i32 n) w.ptr n,
  ground (arith, kept, is),
  ground (arith, number, is, as_i32-small n h.1),
)
buffer_given task cb (negsuc n) buf v h number (kept, (w, is)) = (
  buffer cb (error_code (raw_os_error (negsuc n))) w.ptr w.len,
  ground (arith, kept, is),
  ground (arith, is, error_code-raw_os_error n (omega (arith, h.0))),
)

-- Of any operation but a timeout, and of a result that an `int` can hold: the callback is called with
-- the result itself if that is an error or if the operation tells a number, and with zero otherwise,
-- and it is given back the buffer that the operation was lent, where it was. A `read_at`, a `write_at`,
-- a `send` or a `recv` has its buffer still; of an `accept`, the address that the kernel has written is
-- of a family that is known.
pub answer-given :
    (out : Outside) (task : Task) (cb : Pointer) (res : ℤ) (v : Option Vec)
    → IsCode res
    → IsReady out task v
    → (call : Call) × (answer out task cb res ≡ ret call) × (given call ≡ expected task cb res v)
unfolding answer Sockets.shutdown Files.fsync Files.truncate Sockets.bind Sockets.listen Files.close
    Sockets.socket Buffers.write_at Buffers.read_at Buffers.send Buffers.recv resource_result
    number_result
answer-given out (shutdown t) cb res v h ready =
    (code cb (unit_code (unit_result res)), refl, success_given (shutdown t) cb res v h refl ready)
answer-given out (fsync t) cb res v h ready =
    (code cb (unit_code (unit_result res)), refl, success_given (fsync t) cb res v h refl ready)
answer-given out (truncate t) cb res v h ready =
    (code cb (unit_code (unit_result res)), refl, success_given (truncate t) cb res v h refl ready)
answer-given out (bind t) cb res v h ready =
    (code cb (unit_code (unit_result res)), refl, success_given (bind t) cb res v h refl ready)
answer-given out (listen t) cb res v h ready =
    (code cb (unit_code (unit_result res)), refl, success_given (listen t) cb res v h refl ready)
answer-given out (close t) cb res v h ready =
    (code cb (unit_code (unit_result res)), refl, success_given (close t) cb res v h refl ready)
answer-given out (socket t) cb res v h ready =
    (code cb (number_code (number_result res)), refl, number_given (socket t) cb res v h refl ready)
answer-given out (write_at t) cb res v h ready =
    buffer_given (write_at t) cb res t.buf v h refl ready
answer-given out (read_at t) cb res v h ready = buffer_given (read_at t) cb res t.buf v h refl ready
answer-given out (send t) cb res v h ready = buffer_given (send t) cb res t.buf v h refl ready
answer-given out (recv t) cb res v h ready = buffer_given (recv t) cb res t.buf v h refl ready
answer-given out (accept t) cb res v h ready = peer_given out t cb res v h ready
answer-given out (timeout t) cb res v h ready = elim ready [ ]
