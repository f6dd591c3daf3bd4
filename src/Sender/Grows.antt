-- ===== src/Sender/Grows.antt =====
-- What no call of libsponge/tcp_sender.cc takes back: the queue of segments grows at its end, and the
-- error flag of the stream stays.
use csed.Base.{
  ℕ, zero, suc, ◌≡◌, refl, sym, ap, ◌∙◌, true, false, not, List, [], ◌∷◌, ◌++◌, append-nil,
  append_assoc, if◌then◌else◌, Bool-cases, inl, inr, ltb, leb, Bool, ◌%◌, ◌+◌, u64_mod,
}
use csed.ByteStream
use csed.Wrapping.{WrappingInt32, unwrap}
use csed.Segment.{TcpSegment}
use csed.Sender.{
  OrderedSegment, TcpSender, send_segment, goes_on, fill_round, fill_loop, fill_window, take_ack,
  ack_received, retransmit, stop_timer, tick, send_empty_segment, is_empty, can_send,
}

pub record Grows (s q : TcpSender) : Type 0 where
  pub new : List TcpSegment
  pub out : q.segments_out ≡ s.segments_out ++ new
  pub same_error : q.stream.error ≡ s.stream.error

Grows-none :
    (s q : TcpSender)
    → q.segments_out ≡ s.segments_out
    → q.stream.error ≡ s.stream.error
    → Grows s q
Grows-none s q e h = record { new = []; out = e ∙ sym (append-nil s.segments_out); same_error = h }

Grows-trans : (s q t : TcpSender) → Grows s q → Grows q t → Grows s t
Grows-trans s q t g h = record {
  new = g.new ++ h.new;
  out = h.out ∙ ap (λ xs. xs ++ h.new) g.out ∙ append_assoc s.segments_out g.new h.new;
  same_error = h.same_error ∙ g.same_error;
}

fill_round-Grows : (n : ℕ) (s : TcpSender) → Grows s (fill_round n s).1
unfolding fill_round send_segment ByteStream.read ByteStream.pop_output
fill_round-Grows n s = record { new = _ ∷ []; out = refl; same_error = refl }

fill_loop-Grows : (fuel n : ℕ) (s : TcpSender) → Grows s (fill_loop fuel n s)
unfolding fill_loop
fill_loop-Grows zero n s = Grows-none s s refl refl
fill_loop-Grows (suc fuel) n s =
    let (n', s') = fill_round n s in
    elim (Bool-cases (goes_on n s)) [
      | inl e ↦ rw e (Grows-trans s s' _ (fill_round-Grows n s) (fill_loop-Grows fuel n' s'))
      | inr e ↦ rw e (Grows-none s s refl refl)
    ]

-- A branch that goes the same way on both sides.
if-Grows : (b : Bool) (s x y : TcpSender) → Grows s x → Grows s y → Grows s (if b then x else y)
if-Grows true s x y g h = g
if-Grows false s x y g h = h

pub fill_window-Grows : (s : TcpSender) → Grows s (fill_window s)
unfolding fill_window send_segment
fill_window-Grows s =
    if-Grows (not s.syn) s _ (fill_loop (s.stream.end_of_buffer + 2) (can_send s) s)
      (record { new = _ ∷ []; out = refl; same_error = refl })
      (fill_loop-Grows (s.stream.end_of_buffer + 2) (can_send s) s)

pub ack_received-Grows :
    (s : TcpSender) (n : WrappingInt32) (win : ℕ) → Grows s (ack_received s n win)
unfolding ack_received take_ack
ack_received-Grows s n win =
    let abs = unwrap n s.isn s.checkpoint in
    let s' = record s { rwnd = win } in
    let g : Grows s (fill_window (take_ack s' abs)) =
      Grows-trans s (take_ack s' abs) _ (Grows-none s _ refl refl)
        (fill_window-Grows (take_ack s' abs)) in
    elim (Bool-cases (ltb s.next_seqno abs)) [
      | inl e ↦ rw e (Grows-none s s' refl refl)
      | inr e ↦ elim (Bool-cases (leb abs s.checkpoint)) [
        | inl h ↦ rw (e, h) (Grows-none s s' refl refl)
        | inr h ↦ rw (e, h) g
      ]
    ]

stop_timer-Grows : (s : TcpSender) → Grows s (stop_timer s)
unfolding stop_timer
stop_timer-Grows s = elim (Bool-cases (is_empty s.segments_in_flight)) [
  | inl e ↦ rw e (Grows-none s _ refl refl)
  | inr e ↦ rw e (Grows-none s s refl refl)
]

retransmit-Grows : (s : TcpSender) (ts : List OrderedSegment) → Grows s (retransmit s ts)
unfolding retransmit
retransmit-Grows s [] = Grows-none s s refl refl
retransmit-Grows s (t ∷ ts) = record { new = t.seg ∷ []; out = refl; same_error = refl }

pub tick-Grows : (s : TcpSender) (ms : ℕ) → Grows s (tick s ms)
unfolding tick
tick-Grows s ms =
    let later = record s { time_spent = (s.time_spent + ms) % u64_mod } in
    let g = Grows-none s later refl refl in
    elim (Bool-cases (leb s.rto ((s.time_spent + ms) % u64_mod))) [
      | inl e ↦ rw e (
          Grows-trans s _ _ (Grows-trans s later _ g (retransmit-Grows later s.segments_in_flight))
            (stop_timer-Grows _))
      | inr e ↦ rw e (Grows-trans s later _ g (stop_timer-Grows later))
    ]

pub send_empty_segment-Grows : (s : TcpSender) → Grows s (send_empty_segment s)
unfolding send_empty_segment
send_empty_segment-Grows s = record { new = _ ∷ []; out = refl; same_error = refl }
