-- ===== src/Net/Connection/Stream.antt =====
-- What the peer of a TcpConnection receives: the bytes handed to `send`, in order.
use mathlib.Core.List.{append-nil, append_assoc}
use mutty.Common.{
  ℕ, zero, suc, ◌≡◌, refl, sym, ap, inl, inr, Bool, true, false, not, ◌&&◌, ◌||◌, some, List, [],
  ◌∷◌, ◌++◌, arith, ltb, if◌then◌else◌, Bool-cases, lt→ltb, length, take, drop, take-append_drop,
}
use mutty.Net.Connection.{
  State, Errno, WriteResult, ReadResult, Functor, Connection, Event, is_state, is_nil,
  write_directly, append_output, queue_rest, send_in_loop, send, shutdown, force_close,
  force_close_in_loop, connect_established, connect_destroyed, handle_read, flushed, handle_write,
  run_functor, run_queued, step,
}

-- What the socket took, then what waits in the output buffer.
abbrev pub stream : Connection → List ℕ
stream c = c.sent ++ c.output

abbrev pub is_fault : WriteResult → Bool
is_fault (WriteResult.failed Errno.pipe) = true
is_fault (WriteResult.failed Errno.conn_reset) = true
is_fault r = false

-- `sendInLoop` drops its bytes on a closed connection, and when it writes at once and the peer is gone.
abbrev pub loses : Connection → WriteResult → Bool
loses c r = is_state c.state State.disconnected || (not c.writing && is_nil c.output && is_fault r)

drop_nil : (n : ℕ) (bytes : List ℕ) → ltb 0 (length (drop n bytes)) ≡ false → take n bytes ≡ bytes
drop_nil zero [] h = refl
drop_nil zero (x ∷ bytes) h = absurd (ground arith)
drop_nil (suc n) [] h = refl
drop_nil (suc n) (x ∷ bytes) h = ap (◌∷◌ x) (drop_nil n bytes h)

stream-write_directly :
    (c : Connection) (r : WriteResult) (bytes : List ℕ)
    → is_fault r ≡ false
    → let (c', remaining, fault_error) = write_directly c r bytes in
      (c'.sent ++ remaining ≡ c.sent ++ bytes) × (c'.output ≡ c.output) × (fault_error ≡ false)
unfolding write_directly
stream-write_directly c (WriteResult.wrote n) bytes h =
    ground (arith, append_assoc c.sent (take n bytes) (drop n bytes), take-append_drop n bytes)
stream-write_directly c (WriteResult.failed Errno.pipe) bytes h = cc
stream-write_directly c (WriteResult.failed Errno.conn_reset) bytes h = cc
stream-write_directly c (WriteResult.failed Errno.would_block) bytes h = (refl, refl, refl)
stream-write_directly c (WriteResult.failed Errno.other) bytes h = (refl, refl, refl)

stream-append_output :
    (c : Connection) (remaining : List ℕ)
    → stream (append_output c remaining) ≡ stream c ++ remaining
unfolding append_output
stream-append_output c remaining = ground (arith, append_assoc c.sent c.output remaining)

stream-queue_rest :
    (c : Connection) (remaining : List ℕ)
    → stream (queue_rest c remaining false) ≡ stream c ++ remaining
unfolding queue_rest
stream-queue_rest c [] = sym (append-nil (stream c))
stream-queue_rest c (x ∷ remaining) =
    rw (lt→ltb 0 (suc (length remaining)) (omega arith)) (stream-append_output c (x ∷ remaining))

write_directly-fault :
    (c : Connection) (r : WriteResult) (bytes : List ℕ)
    → is_fault r ≡ true
    → write_directly c r bytes ≡ (c, bytes, true)
unfolding write_directly
write_directly-fault c (WriteResult.wrote n) bytes h = cc
write_directly-fault c (WriteResult.failed Errno.pipe) bytes h = refl
write_directly-fault c (WriteResult.failed Errno.conn_reset) bytes h = refl
write_directly-fault c (WriteResult.failed Errno.would_block) bytes h = cc
write_directly-fault c (WriteResult.failed Errno.other) bytes h = cc

is_nil→eq : (xs : List ℕ) → is_nil xs ≡ true → xs ≡ []
is_nil→eq [] h = refl
is_nil→eq (x ∷ xs) h = cc

-- A write at once, with the buffer empty.
stream-idle :
    (c : Connection) (r : WriteResult) (bytes : List ℕ)
    → c.output ≡ []
    → let (c', remaining, fault_error) = write_directly c r bytes in
      stream (queue_rest c' remaining fault_error)
      ≡ (if is_fault r then stream c else stream c ++ bytes)
stream-idle c r bytes h = elim (Bool-cases (is_fault r)) [
  | inl e ↦ rw (e, write_directly-fault c r bytes e) (unfold queue_rest in refl)
  | inr e ↦
      let (s, o, f) = stream-write_directly c r bytes e in
      let c' = (write_directly c r bytes).0 in
      let rest = stream-queue_rest c' (write_directly c r bytes).1 in
      rw (e, f) (cc (rest, s, o, h, append-nil c.sent, append-nil c'.sent))
]

-- `sendInLoop` appends exactly its bytes to the stream, what the socket took and then what waits in
-- the output buffer, or none of them on a closed connection, or if it writes at once and the write
-- fails with EPIPE or ECONNRESET.
pub stream-send_in_loop :
    (c : Connection) (r : WriteResult) (bytes : List ℕ)
    → stream (send_in_loop c r bytes) ≡ (if loses c r then stream c else stream c ++ bytes)
unfolding send_in_loop
stream-send_in_loop c r bytes =
    ground (arith, stream-idle c r bytes, is_nil→eq c.output, stream-queue_rest c bytes)

-- The bytes that a call adds to the stream.
abbrev pub accepts : Connection → WriteResult → List ℕ → List ℕ
accepts c r bytes = if loses c r then [] else bytes

abbrev pub accepted_functor : Connection → List Functor → WriteResult → List ℕ
accepted_functor c (Functor.send_in_loops bytes ∷ fs) r = accepts c r bytes
accepted_functor c (f ∷ fs) r = []
accepted_functor c [] r = []

abbrev pub accepted_by : Connection → Event → List ℕ
accepted_by c (Event.sends in_loop r bytes) =
    if is_state c.state State.connected && in_loop then accepts c r bytes else []
accepted_by c (Event.queue_runs r) = accepted_functor c c.queued r
accepted_by c e = []

stream-send_in_loop-accepts :
    (c : Connection) (r : WriteResult) (bytes : List ℕ)
    → stream (send_in_loop c r bytes) ≡ stream c ++ accepts c r bytes
stream-send_in_loop-accepts c r bytes =
    ground (arith, stream-send_in_loop c r bytes, append-nil (stream c))

stream-handle_write : (c : Connection) (r : WriteResult) → stream (handle_write c r) ≡ stream c
unfolding handle_write flushed
stream-handle_write c (WriteResult.wrote n) =
    ground
      (arith, append_assoc c.sent (take n c.output) (drop n c.output), take-append_drop n c.output)
stream-handle_write c (WriteResult.failed e) = refl

stream-run_queued :
    (c c' : Connection) (fs : List Functor) (r : WriteResult)
    → c.queued ≡ fs
    → run_queued c r ≡ some c'
    → stream c' ≡ stream c ++ accepted_functor c fs r
unfolding run_queued run_functor force_close_in_loop
stream-run_queued c c' [] r e h = ground (arith, append-nil (stream c))
stream-run_queued c c' (Functor.send_in_loops bytes ∷ fs) r e h =
    ground (arith, stream-send_in_loop-accepts (record c { queued = fs }) r bytes)
stream-run_queued c c' (f ∷ fs) r e h = ground (arith, append-nil (stream c))

-- Every call that fails no assertion appends to the stream, what the socket took and then what waits
-- in the output buffer, exactly the bytes that it accepts: those of a send, or of a queued send that
-- the loop runs, unless `sendInLoop` loses them, and none for the other calls.
pub stream-step :
    (c c' : Connection) (e : Event) → step c e ≡ some c' → stream c' ≡ stream c ++ accepted_by c e
unfolding step send connect_established connect_destroyed force_close shutdown handle_read
stream-step c c' (Event.sends in_loop r bytes) h =
    ground (arith, stream-send_in_loop-accepts c r bytes, append-nil (stream c))
stream-step c c' (Event.queue_runs r) h = stream-run_queued c c' c.queued r refl h
stream-step c c' (Event.writable r) h =
    ground (arith, stream-handle_write c r, append-nil (stream c))
stream-step c c' Event.established h = ground (arith, append-nil (stream c))
stream-step c c' Event.destroyed h = ground (arith, append-nil (stream c))
stream-step c c' Event.force_closed h = ground (arith, append-nil (stream c))
stream-step c c' (Event.shut_down in_loop) h = ground (arith, append-nil (stream c))
stream-step c c' (Event.readable (ReadResult.got [])) h = ground (arith, append-nil (stream c))
stream-step c c' (Event.readable (ReadResult.got (x ∷ xs))) h =
    ground (arith, append-nil (stream c))
stream-step c c' (Event.readable ReadResult.read_error) h = ground (arith, append-nil (stream c))
