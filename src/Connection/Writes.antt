-- ===== src/Connection/Writes.antt =====
-- easy_connection.go, the way out: `Send`, `Close`, the loop of `Write`, and what `Read` does when
-- it returns. The write channel is a queue of at most 100 entries, in which `none` is a nil slice.
use easycall.Base.{
  ℕ, suc, ◌+◌, ◌<◌, ◌≤◌, ◌≡◌, refl, sym, subst, ap, ◌∙◌, Bytes, Bool, true, false, Option, none,
  some, List, [], ◌∷◌, ◌++◌, map, append_assoc, append-nil, length, length-append, ltb, lt→ltb,
  if◌then◌else◌, arith,
}

abbrev pub easycall_write_queue_size : ℕ
easycall_write_queue_size = 100

pub record WriteChan : Type 0 where
  pub queue : List (Option Bytes)
  pub closed : Bool

-- `write_chan` is `none` until a channel is made.
pub record EasyConnection : Type 0 where
  pub is_close : Bool
  pub write_chan : Option WriteChan

-- How a send on a channel ends: at once, not before the queue has room, or in a panic.
pub data Sent : Type 0 where
  queued dropped blocked panics : Sent

abbrev push_entry : EasyConnection → WriteChan → Option Bytes → EasyConnection
push_entry ec c entry = record ec { write_chan = some (record c { queue = c.queue ++ entry ∷ [] }) }

unfoldable pub chan_send : EasyConnection → Option Bytes → EasyConnection × Sent
chan_send ec entry = elim ec.write_chan [
  | none ↦ (ec, dropped)
  | some c ↦
      if c.closed
      then (ec, panics)
      else if ltb (length c.queue) easycall_write_queue_size
      then (push_entry ec c entry, queued)
      else (ec, blocked)
]

unfoldable pub send : EasyConnection → Bytes → EasyConnection × Sent
unfolding chan_send
send ec pkg_data = if ec.is_close then (ec, dropped) else chan_send ec (some pkg_data)

-- The flag is set; the result says whether the TCP connection is closed by this call.
unfoldable pub close : EasyConnection → EasyConnection × Bool
close ec = if ec.is_close then (ec, false) else (record ec { is_close = true }, true)

-- The deferred call in `Read`, where the queue has room for the nil slice.
unfoldable pub read_exit : EasyConnection → EasyConnection × Sent
unfolding close chan_send
read_exit ec =
    let (closed, _) = close ec in
    let (ended, result) = chan_send closed none in
    elim ended.write_chan [
      | none ↦ (ended, dropped)
      | some c ↦ (record ended { write_chan = some (record c { closed = true }) }, result)
    ]

-- `Write` over the entries of the queue: what goes to the socket, and whether the loop goes on
-- waiting. `accepts` says whether `conn.Write` takes a package.
unfoldable pub write_loop : (Bytes → Bool) → List (Option Bytes) → List Bytes × Bool
write_loop accepts [] = ([], true)
write_loop accepts (none ∷ entries) = ([], false)
write_loop accepts (some pkg ∷ entries) =
    let (sent, more) = write_loop accepts entries in
    if accepts pkg then (pkg ∷ sent, more) else ([], false)

-- All the packages that `Send` accepts, in order, for a run of calls.
unfoldable pub send_all : EasyConnection → List Bytes → EasyConnection
send_all ec [] = ec
send_all ec (p ∷ ps) = send_all (send ec p).0 ps

-- An open connection with a queue.
abbrev pub IsOpen : EasyConnection → List (Option Bytes) → Type 0
IsOpen ec queue =
    (ec.is_close ≡ false) × (ec.write_chan ≡ some (record { queue = queue; closed = false }))

-- A send on an open connection with room puts the package at the end of the queue.
pub send_queued :
    (ec : EasyConnection) (queue : List (Option Bytes)) (p : Bytes)
    → IsOpen ec queue
    → length queue < easycall_write_queue_size
    → send ec p ≡ (
      record ec { write_chan = some (record { queue = queue ++ some p ∷ []; closed = false }) },
      queued,
    )
unfolding send
send_queued ec queue p (o, e) h =
    simp (send, o, chan_send, e, lt→ltb (length queue) easycall_write_queue_size h)

pub send-IsOpen :
    (ec : EasyConnection) (queue : List (Option Bytes)) (p : Bytes)
    → IsOpen ec queue
    → length queue < easycall_write_queue_size
    → IsOpen (send ec p).0 (queue ++ some p ∷ [])
unfolding send
send-IsOpen ec queue p (o, e) h =
    rw (o, e, chan_send) (rw (lt→ltb (length queue) easycall_write_queue_size h) (o, refl))

send_all-IsOpen :
    (ps : List Bytes) (ec : EasyConnection) (queue : List (Option Bytes))
    → IsOpen ec queue
    → length queue + length ps ≤ easycall_write_queue_size
    → IsOpen (send_all ec ps) (queue ++ map some ps)
unfolding send_all
send_all-IsOpen [] ec queue o h = subst (IsOpen ec) (sym (append-nil queue)) o
send_all-IsOpen (p ∷ ps) ec queue o h =
    subst (IsOpen (send_all (send ec p).0 ps)) (append_assoc queue (some p ∷ []) (map some ps)) (
      send_all-IsOpen ps (send ec p).0 (queue ++ some p ∷ [])
        (send-IsOpen ec queue p o (omega arith)) (omega (arith, length-append queue (some p ∷ []))))

write_loop-append :
    (ps : List Bytes) (entries : List (Option Bytes))
    → write_loop (λ _. true) (map some ps ++ entries)
      ≡ (ps ++ (write_loop (λ _. true) entries).0, (write_loop (λ _. true) entries).1)
unfolding write_loop
write_loop-append [] entries = refl
write_loop-append (p ∷ ps) entries = rw (write_loop-append ps entries) refl

-- Up to 100 packages sent on a fresh connection stand in its queue, and while the socket takes
-- them `Write` writes exactly these, in the order in which they were sent, and goes on waiting.
pub send_write_order :
    (ec : EasyConnection) (ps : List Bytes)
    → IsOpen ec []
    → length ps ≤ easycall_write_queue_size
    → (queue : List (Option Bytes)) × IsOpen (send_all ec ps) queue
      × (write_loop (λ _. true) queue ≡ (ps, true))
send_write_order ec ps o h = (
  map some ps,
  send_all-IsOpen ps ec [] o (omega arith),
  subst (λ q. write_loop (λ _. true) q ≡ (ps, true)) (append-nil (map some ps))
      (write_loop-append ps [] ∙ (unfold write_loop in rw (append-nil ps) refl)),
)

length-map : (ps : List Bytes) → length (map {B = Option Bytes} some ps) ≡ length ps
length-map [] = refl
length-map (p ∷ ps) = ap suc (length-map ps)

read_exit_open :
    (ec : EasyConnection) (queue : List (Option Bytes)) (later : Bytes)
    → IsOpen ec queue
    → length queue < easycall_write_queue_size
    → (read_exit ec).0.write_chan ≡ some (record { queue = queue ++ none ∷ []; closed = true })
unfolding read_exit
read_exit_open ec queue later (o, e) h = ground arith

send_after_exit :
    (ec : EasyConnection) (queue : List (Option Bytes)) (later : Bytes)
    → IsOpen ec queue
    → send (read_exit ec).0 later ≡ ((read_exit ec).0, dropped)
unfolding read_exit send
send_after_exit ec queue later (o, e) = ground arith

-- When `Read` returns with room in the queue, `Write` still writes all that was queued and then
-- ends, and every later package is dropped.
pub read_exit_flushes :
    (ec : EasyConnection) (ps : List Bytes) (later : Bytes)
    → IsOpen ec (map some ps)
    → length ps < easycall_write_queue_size
    → (queue : List (Option Bytes)) × ((read_exit ec).0.write_chan
        ≡ some (record { queue = queue; closed = true }))
      × (write_loop (λ _. true) queue ≡ (ps, false))
      × (send (read_exit ec).0 later ≡ ((read_exit ec).0, dropped))
read_exit_flushes ec ps later o h = (
  map some ps ++ none ∷ [],
  read_exit_open ec (map some ps) later o (omega (arith, length-map ps)),
  write_loop-append ps (none ∷ []) ∙ (unfold write_loop in rw (append-nil ps) refl),
  send_after_exit ec (map some ps) later o,
)
