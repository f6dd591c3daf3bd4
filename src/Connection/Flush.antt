-- ===== src/Connection/Flush.antt =====
-- `TCPConnection::_send_segments`: what leaves the connection.
use csed.Base.{
  ◌≡◌, refl, sym, ap, ◌∙◌, Bool, true, false, ◌&&◌, List, [], ◌∷◌, ◌++◌, map, append-nil,
  append_assoc,
}
use csed.Segment.{TcpSegment}
use csed.Receiver.{TcpReceiver}
use csed.Sender
use csed.Sender.{TcpSender, is_empty}
use csed.Connection.{TcpConnection, dress, flush, send_segments, clean_shutdown}

-- All of the list, the last one changed in its own way.
unfoldable pub dress_all : TcpReceiver → Bool → List TcpSegment → List TcpSegment
dress_all r set_rst [] = []
dress_all r set_rst (seg ∷ queue) =
    dress r (set_rst && is_empty queue) seg ∷ dress_all r set_rst queue

pub flush_lem :
    (r : TcpReceiver) (set_rst : Bool) (queue out : List TcpSegment)
    → flush r set_rst queue out ≡ out ++ dress_all r set_rst queue
unfolding flush dress_all
flush_lem r set_rst [] out = sym (append-nil out)
flush_lem r set_rst (seg ∷ queue) out =
    flush_lem r set_rst queue _ ∙ append_assoc out _ (dress_all r set_rst queue)

-- Without a reset every segment is dressed alike.
pub dress_all-map :
    (r : TcpReceiver) (queue : List TcpSegment)
    → dress_all r false queue ≡ map (dress r false) queue
unfolding dress_all
dress_all-map r [] = refl
dress_all-map r (seg ∷ queue) = ap (◌∷◌ (dress r false seg)) (dress_all-map r queue)

-- With one, the last of them is the reset.
pub dress_all-append :
    (r : TcpReceiver) (queue : List TcpSegment) (seg : TcpSegment)
    → dress_all r true (queue ++ (seg ∷ [])) ≡ map (dress r false) queue ++ (dress r true seg ∷ [])
unfolding dress_all is_empty
dress_all-append r [] seg = refl
dress_all-append r (x ∷ []) seg = refl
dress_all-append r (x ∷ y ∷ queue) seg =
    ap (◌∷◌ (dress r false x)) (dress_all-append r (y ∷ queue) seg)

pub send_segments_lem :
    (set_rst : Bool) (c : TcpConnection)
    → let s = Sender.fill_window c.sender in
      let q = send_segments set_rst c in
      (q.segments_out ≡ c.segments_out ++ dress_all c.receiver set_rst s.segments_out)
      × (q.sender ≡ record s { segments_out = [] })
      × (q.receiver ≡ c.receiver)
unfolding send_segments clean_shutdown
send_segments_lem set_rst c = (
  flush_lem c.receiver set_rst (Sender.fill_window c.sender).segments_out c.segments_out,
  refl,
  refl,
)
