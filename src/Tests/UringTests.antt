-- ===== src/Tests/UringTests.antt =====
-- A ring that is its queue of completions, and never waits for more.
use lio.Base.{
  ℕ, ◌+◌, ◌*◌, ◌^◌, false, ◌≡◌, refl, ◌∙◌, true, none, some, Option, List, [], ◌∷◌, map, arith, ℤ,
  pos, negsuc, ret, ok, drop, length, sym, append-nil, ◌++◌,
}
use lio.Op.{RawBuf}
use lio.Uring.Completions.{is_ok, has_more, buffer_id}
use lio.Uring.{Liburing, IsLiburing, IsBetween, Completion}
use lio.IoUring.{IoUring, completed_of, wait_timeout}
use lio.Uring.Entries.{build_recv}
use lio.Uring.Entries.Transfers.{build_recv_multi}
use lio.IoUring.Drained.{wait_timeout_takes_ready, polled, Drains}

abbrev two : List Completion
two =
    record { user_data = 7; res = pos 3; flags = 0 }
    ∷ record { user_data = 4; res = negsuc 8; flags = 0 }
    ∷ []

abbrev no_entry : Completion
no_entry = record { user_data = 0; res = pos 0; flags = 0 }

-- What is ready, what the kernel has yet to post, and what it has posted: one more at each peek that
-- finds something.
abbrev Ring : Type 0
Ring = List Completion × List Completion × List Completion

abbrev arrive : Ring → Ring
arrive (ready, [], past) = (ready, [], past)
arrive (ready, c ∷ coming, past) = (ready ++ c ∷ [], coming, past ++ c ∷ [])

abbrev wait_head : Ring → ℤ × Completion × Ring
wait_head ([], coming, past) = (negsuc 3, no_entry, ([], coming, past))
wait_head (c ∷ cs, coming, past) = (pos 0, c, (c ∷ cs, coming, past))

abbrev peek_head : Ring → ℤ × Option Completion × Ring
peek_head ([], coming, past) = (negsuc 10, none, ([], coming, past))
peek_head (c ∷ cs, coming, past) = (pos 0, some c, arrive (c ∷ cs, coming, past))

abbrev seen_head : Ring → Ring
seen_head (ready, coming, past) = (drop 1 ready, coming, past)

abbrev queue : Liburing Ring
queue = record {
  queue_init_params = λ params k. (pos 0, ([], [], []));
  queue_exit = λ k. k;
  register_buffers = λ buffers k. (pos 0, k);
  unregister_buffers = λ k. (pos 0, k);
  register_files = λ fds k. (pos 0, k);
  register_files_update = λ offset fds k. (pos 0, k);
  unregister_files = λ k. (pos 0, k);
  sq_space_left = λ k. 8;
  cq_ready = λ k. length k.0;
  get_sqe = λ k. (true, k);
  write_sqe = λ sqe k. k;
  ring_flags = λ k. 0;
  sqe_head = λ k. 0;
  sqe_tail = λ k. 0;
  publish = λ tail k. k;
  khead = λ k. (0, k);
  kflags = λ k. (0, k);
  submit = λ k. (pos 0, k);
  submit_and_wait = λ k. (pos 0, k);
  wait_cqe = wait_head;
  wait_cqe_timeout = λ d k. wait_head k;
  peek_cqe = peek_head;
  cqe_seen = seen_head;
}

abbrev all_posted : Ring → List Completion
all_posted k = k.2

abbrev all_ready : Ring → List Completion
all_ready k = k.0

head_ready :
    (k k' : Ring) (r : ℕ) (c : Completion)
    → wait_head k ≡ (pos r, c, k')
    → (cs : List Completion) × (k'.0 ≡ c ∷ cs)
head_ready ([], coming, past) k' r c e = cc
head_ready (d ∷ ds, coming, past) k' r c e = (ds, ground (arith, e))

resting : (k : Ring) → IsBetween all_posted all_ready k [] k
resting k = record { new = []; grows = sym (append-nil k.2); moves = append-nil k.0 }

arriving : (k : Ring) → IsBetween all_posted all_ready k [] (arrive k)
arriving (ready, [], past) = resting (ready, [], past)
arriving (ready, c ∷ coming, past) = record { new = c ∷ []; grows = refl; moves = refl }

head_seen :
    (k : Ring) (c : Completion) (cs : List Completion)
    → k.0 ≡ c ∷ cs
    → IsBetween all_posted all_ready k (c ∷ []) (seen_head k)
head_seen ([], coming, past) c cs e = cc
head_seen (d ∷ ds, coming, past) c cs e = record {
  new = [];
  grows = sym (append-nil past);
  moves = append-nil (d ∷ ds) ∙ cc;
}

head_peeked :
    (k : Ring) (c : Completion) (cs : List Completion)
    → k.0 ≡ c ∷ cs
    → (k' : Ring) × (peek_head k ≡ (pos 0, some c, k')) × IsBetween all_posted all_ready k [] k'
head_peeked ([], coming, past) c cs e = cc
head_peeked (d ∷ ds, coming, past) c cs e =
    (arrive (d ∷ ds, coming, past), ground (arith, e), arriving (d ∷ ds, coming, past))

none_peeked :
    (k : Ring)
    → k.0 ≡ []
    → (k' : Ring) × (peek_head k ≡ (negsuc 10, none, k')) × IsBetween all_posted all_ready k [] k'
none_peeked ([], coming, past) e = (([], coming, past), refl, resting ([], coming, past))
none_peeked (d ∷ ds, coming, past) e = cc

queue-IsLiburing : IsLiburing queue
queue-IsLiburing = record {
  posted = all_posted;
  ready = all_ready;
  seen = head_seen;
  peeks = head_peeked;
  nothing = none_peeked;
  waits = head_ready;
  times = λ d. head_ready;
}

-- The second completion is posted while the first is fetched.
abbrev one_more : Ring
one_more = (
  record { user_data = 7; res = pos 3; flags = 0 } ∷ [],
  record { user_data = 4; res = negsuc 8; flags = 0 } ∷ [],
  record { user_data = 7; res = pos 3; flags = 0 } ∷ [],
)

takes_both :
    wait_timeout queue 5
      (some (record { secs = 0; nanos = 0 }))
      (record { ring = true; completed = [] }, one_more)
    ≡ ret (
      ok (map completed_of two),
      (record { ring = true; completed = map completed_of two }, ([], [], two)),
    )
unfolding wait_timeout lio.Uring.try_wait
takes_both = refl

wait_timeout_takes_ready_example :
    Drains queue queue-IsLiburing 5
      (some (record { secs = 0; nanos = 0 }))
      (record { ring = true; completed = [] })
      one_more
      one_more
unfolding queue-IsLiburing
wait_timeout_takes_ready_example =
    wait_timeout_takes_ready queue queue-IsLiburing 5 (some (record { secs = 0; nanos = 0 }))
      (record { ring = true; completed = [] }) one_more one_more refl
      (polled (record { secs = 0; nanos = 0 }) refl) (omega arith)

abbrev a_buffer : RawBuf
a_buffer = record { ptr = 64; len = 16 }

abbrev idle_ring : IoUring
idle_ring = record { ring = true; completed = [] }

-- A multishot receive has the opcode of a plain one; its `ioprio` tells them apart.
multishot_shares_opcode :
    ((build_recv_multi (pos 3) 5 (pos 0)).opcode ≡ (build_recv (pos 3) 64 16 (pos 0) 0).opcode)
    × ((build_recv_multi (pos 3) 5 (pos 0)).ioprio ≡ 2)
multishot_shares_opcode = (refl, refl)

-- Buffer 42, with more completions to come.
chosen_buffer :
    (buffer_id (record { user_data = 7; res = pos 3; flags = 42 * 2 ^ 16 + 3 }) ≡ some 42)
    × (has_more (record { user_data = 7; res = pos 3; flags = 42 * 2 ^ 16 + 3 }) ≡ true)
    × (is_ok (record { user_data = 7; res = negsuc 3; flags = 0 }) ≡ false)
unfolding buffer_id has_more is_ok
chosen_buffer = (refl, refl, refl)
