-- ===== src/Connection/Tests.antt =====
-- The reader and the writer at concrete inputs.
use easycall.Base.{
  ◌≡◌, ◌≢◌, refl, inl, Bytes, true, false, some, none, Option, List, [], ◌∷◌, ◌++◌, arith,
}
use easycall.Package.Frame.{frame, prefix}
use easycall.Connection.{stop, read_error, bad_etx, read_turn, read_loop}
use easycall.Connection.Partial.{
  Parts, frame_of, read_loop-frames, read_loop_ends, read_turn_partial,
}
use easycall.Connection.Writes.{
  EasyConnection, IsOpen, send, send_all, dropped, write_loop, read_exit, send_write_order,
  read_exit_flushes,
}

abbrev small : Parts
small = record {
  format = 1;
  head = 7 ∷ 8 ∷ [];
  body = 9 ∷ [];
  is_format = inl refl;
  head_fits = omega arith;
  fits = omega arith;
}

read_loop-frames_example :
    read_loop 3 (frame_of small ∷ frame_of small ∷ [])
    ≡ (frame_of small ∷ frame_of small ∷ [], some read_error)
read_loop-frames_example = read_loop-frames 3 (small ∷ small ∷ []) (omega arith)

read_loop_ends_example : (read_loop 9 ((2 ∷ 1 ∷ []) ∷ (3 ∷ []) ∷ [])).1 ≢ none
read_loop_ends_example = read_loop_ends 9 ((2 ∷ 1 ∷ []) ∷ (3 ∷ []) ∷ []) (omega arith)

read_turn_partial_example :
    read_turn ((prefix 1 2 1 ++ 7 ∷ []) ∷ (8 ∷ 9 ∷ 3 ∷ []) ∷ []) ≡ stop bad_etx
unfolding frame
read_turn_partial_example =
    read_turn_partial 1 (7 ∷ 8 ∷ []) (9 ∷ []) (7 ∷ []) (8 ∷ 9 ∷ 3 ∷ []) [] (inl refl) (omega arith)
      (omega arith) refl (cc) (cc)

abbrev fresh : EasyConnection
fresh = record { is_close = false; write_chan = some (record { queue = []; closed = false }) }

sent_in_order :
    (queue : List (Option Bytes)) × IsOpen (send_all fresh ((1 ∷ []) ∷ (2 ∷ []) ∷ [])) queue
    × (write_loop (λ _. true) queue ≡ ((1 ∷ []) ∷ (2 ∷ []) ∷ [], true))
sent_in_order = send_write_order fresh ((1 ∷ []) ∷ (2 ∷ []) ∷ []) (refl, refl) (omega arith)

abbrev busy : EasyConnection
busy = record {
  is_close = false;
  write_chan = some (record { queue = some (1 ∷ []) ∷ []; closed = false });
}

exit_flushed :
    (queue : List (Option Bytes)) × ((read_exit busy).0.write_chan
      ≡ some (record { queue = queue; closed = true }))
    × (write_loop (λ _. true) queue ≡ ((1 ∷ []) ∷ [], false))
    × (send (read_exit busy).0 [] ≡ ((read_exit busy).0, dropped))
exit_flushed = read_exit_flushes busy ((1 ∷ []) ∷ []) [] (refl, refl) (omega arith)
