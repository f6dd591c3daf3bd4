-- ===== src/Sender/Faults.antt =====
-- A receiver's window that shrinks, in libsponge/tcp_sender.cc.
use csed.Base.{◌+◌, ◌<◌, ◌≡◌, ◌⊎◌, inl, inr, true, false, arith, u64_mod}
use csed.Sender.{TcpSender, window, can_send, fill_window}
use csed.Sender.Chain.{IsValid}
use csed.Sender.Window.{IsRoomy, IsDry, fill_window_up_to}

-- With the window's end behind the next sequence number, the count of sendable bytes wraps.
can_send_wraps :
    (s : TcpSender)
    → IsValid s
    → IsRoomy s
    → s.checkpoint + window s < s.next_seqno
    → s.next_seqno + can_send s ≡ s.checkpoint + window s + u64_mod
unfolding can_send
can_send_wraps s v room behind = omega (arith, v.acked, room.far)

-- For a valid sender with room below 2^63 and a 16-bit window, with the SYN sent and no FIN yet,
-- and the receiver's window ending before the next sequence number, `fill_window` does not stop at
-- the window: it goes on until it has sent the FIN, or has no byte and no end left to send.
pub fill_window_overruns :
    (s : TcpSender)
    → IsValid s
    → IsRoomy s
    → s.syn ≡ true
    → s.fin ≡ false
    → s.checkpoint + window s < s.next_seqno
    → ((fill_window s).fin ≡ true) ⊎ IsDry (fill_window s)
fill_window_overruns s v room syn open' behind =
    let sent = fill_window_up_to s v room syn open' in
    elim sent.maximal [
      | inl fin ↦ inl fin
      | inr (inl full) ↦ absurd (
          ground (
            arith,
            full,
            can_send_wraps s v room behind,
            sent.bounded,
            room.far,
            v.stream_valid.fits,
            v.stream_valid.small,
          ))
      | inr (inr dry) ↦ inr dry
    ]
