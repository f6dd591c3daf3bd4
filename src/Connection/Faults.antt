-- ===== src/Connection/Faults.antt =====
-- libsponge/tcp_connection.cc, `_send_segments`: the window that is sent has 16 bits only.
use csed.Base.{
  ℕ, ◌%◌, ◌*◌, ◌≡◌, refl, ap, ◌∙◌, Bool, List, [], ◌∷◌, ◌++◌, map, arith, length, replicate,
  u16_mod,
}
use csed.Segment.{TcpSegment}
use csed.Receiver
use csed.Receiver.{TcpReceiver}
use csed.Sender
use csed.Sender.{is_empty}
use csed.Connection.{TcpConnection, dress, send_segments}
use csed.Connection.Flush.{dress_all, send_segments_lem}

abbrev win : TcpSegment → ℕ
win seg = seg.header.win

map-append : (xs ys : List TcpSegment) → map win (xs ++ ys) ≡ map win xs ++ map win ys
map-append [] ys = refl
map-append (x ∷ xs) ys = ap (◌∷◌ (win x)) (map-append xs ys)

windows :
    (r : TcpReceiver) (set_rst : Bool) (queue : List TcpSegment)
    → map win (dress_all r set_rst queue)
      ≡ replicate (length queue) (Receiver.window_size r % u16_mod)
unfolding dress_all dress
windows r set_rst [] = refl
windows r set_rst (seg ∷ queue) =
    ap (◌∷◌ (Receiver.window_size r % u16_mod)) (windows r set_rst queue)

-- Where the receiver's window is a multiple of 2^16, every segment that `_send_segments` puts out
-- advertises the window 0.
pub window_wraps :
    (set_rst : Bool) (c : TcpConnection) (k : ℕ)
    → Receiver.window_size c.receiver ≡ k * u16_mod
    → map (λ (seg : TcpSegment). seg.header.win) (send_segments set_rst c).segments_out
      ≡ map (λ (seg : TcpSegment). seg.header.win) c.segments_out
        ++ replicate (length (Sender.fill_window c.sender).segments_out) 0
window_wraps set_rst c k h =
    let queue = (Sender.fill_window c.sender).segments_out in
    ap (map win) (send_segments_lem set_rst c).0
    ∙ map-append c.segments_out (dress_all c.receiver set_rst queue)
    ∙ ap (λ xs. map win c.segments_out ++ xs)
        (windows c.receiver set_rst queue ∙ ap (replicate (length queue)) (omega (arith, h)))
