-- ===== src/Connection/Retries.antt =====
-- libsponge/tcp_connection.cc, `tick`: what too many retransmissions do.
use csed.Base.{
  ℕ, ◌%◌, ◌+◌, ◌<◌, ◌≡◌, refl, sym, ap, subst, ◌∙◌, true, false, List, [], ◌∷◌, ◌++◌, append_assoc,
  map, if◌then◌else◌, lt→ltb, u64_mod, Bool-cases, inl, inr,
}
use csed.Segment.{TcpSegment}
use csed.Sender
use csed.Sender.{TcpSender, is_empty, send_empty_segment}
use csed.Sender.Grows.{fill_window-Grows}
use csed.State.{reset, state, of_state}
use csed.Connection.{
  TcpConnection, dress, kill_connection, send_segments, clean_shutdown, unclean_shutdown, give_up,
  tick, max_retx_attempts,
}
use csed.Connection.Flush.{dress_all, dress_all-append, send_segments_lem}
use csed.Connection.Reset.{state-IsReset, unclean_shutdown-IsReset, send_segments-IsReset}

-- A list that is not empty has a last element.
record Ends (xs : List TcpSegment) : Type 0 where
  init : List TcpSegment
  end : TcpSegment
  split : xs ≡ init ++ (end ∷ [])

Ends-cons : (x : TcpSegment) (xs : List TcpSegment) → Ends (x ∷ xs)
Ends-cons x [] = record { init = []; end = x; split = refl }
Ends-cons x (y ∷ ys) =
    let e = Ends-cons y ys in record { init = x ∷ e.init; end = e.end; split = ap (◌∷◌ x) e.split }

Ends-append : (xs ys : List TcpSegment) → is_empty xs ≡ false → Ends (xs ++ ys)
unfolding is_empty
Ends-append [] ys h = absurd (cc h)
Ends-append (x ∷ xs) ys h = Ends-cons x (xs ++ ys)

-- The segments that a shutdown with a reset puts out: the last of them carries the RST.
pub record Resets (before after : List TcpSegment) : Type 0 where
  pub others : List TcpSegment
  pub last : TcpSegment
  pub rest : List TcpSegment
  pub split : after ≡ before ++ (others ++ (last ∷ rest))
  pub is_reset : last.header.rst ≡ true

is_empty-append : (xs : List TcpSegment) (x : TcpSegment) → is_empty (xs ++ (x ∷ [])) ≡ false
unfolding is_empty
is_empty-append [] x = refl
is_empty-append (y ∷ xs) x = refl

-- What `_unclean_shutdown` puts into the sender's queue where it is empty.
unfoldable with_segment : TcpConnection → TcpConnection
with_segment k =
    if is_empty k.sender.segments_out then record k { sender = send_empty_segment k.sender } else k

with_segment_lem :
    (k : TcpConnection)
    → (is_empty (with_segment k).sender.segments_out ≡ false)
      × ((with_segment k).segments_out ≡ k.segments_out)
unfolding with_segment send_empty_segment
with_segment_lem k = elim (Bool-cases (is_empty k.sender.segments_out)) [
  | inl e ↦ rw e (is_empty-append k.sender.segments_out _, refl)
  | inr e ↦ rw e (e, refl)
]

send_segments-Resets :
    (k : TcpConnection)
    → is_empty k.sender.segments_out ≡ false
    → Resets k.segments_out (send_segments true k).segments_out
send_segments-Resets k h =
    let g = fill_window-Grows k.sender in
    let e = Ends-append k.sender.segments_out g.new h in
    record {
      others = map (dress k.receiver false) e.init;
      last = dress k.receiver true e.end;
      rest = [];
      split =
          (send_segments_lem true k).0
          ∙ ap (λ xs. k.segments_out ++ dress_all k.receiver true xs) (g.out ∙ e.split)
          ∙ ap (λ xs. k.segments_out ++ xs) (dress_all-append k.receiver e.init e.end);
      is_reset = unfold dress in refl;
    }

unclean_shutdown-Resets :
    (c : TcpConnection) → Resets c.segments_out (unclean_shutdown c).segments_out
unfolding unclean_shutdown kill_connection with_segment
unclean_shutdown-Resets c =
    let k = kill_connection c in
    let w = with_segment_lem k in
    subst (λ xs. Resets xs (send_segments true (with_segment k)).segments_out) w.1
      (send_segments-Resets (with_segment k) w.0)

later-Resets : (xs ys more : List TcpSegment) → Resets xs ys → Resets xs (ys ++ more)
later-Resets xs ys more r = record {
  others = r.others;
  last = r.last;
  rest = r.rest ++ more;
  split =
      ap (λ zs. zs ++ more) r.split
      ∙ append_assoc xs (r.others ++ (r.last ∷ r.rest)) more
      ∙ ap (λ zs. xs ++ zs) (append_assoc r.others (r.last ∷ r.rest) more);
  is_reset = r.is_reset;
}

-- In any state, a `tick` that takes the count of consecutive retransmissions beyond 8 puts out a
-- segment with RST, and leaves the connection in the official state RESET.
pub tick_gives_up :
    (c : TcpConnection) (ms : ℕ)
    → max_retx_attempts < (Sender.tick c.sender ms).n_consecutive_retransmissions
    → Resets c.segments_out (tick c ms).segments_out × (state (tick c ms) ≡ of_state reset)
unfolding tick give_up
tick_gives_up c ms h =
    let later : TcpConnection = record c {
      sender = Sender.tick c.sender ms;
      time_since_last_segment_received = (c.time_since_last_segment_received + ms) % u64_mod;
    } in
    let q = unclean_shutdown later in
    let syn : q.sent_syn ≡ true = unfold unclean_shutdown send_segments clean_shutdown in refl in
    let out = (send_segments_lem false q).0 in
    rw (lt→ltb max_retx_attempts later.sender.n_consecutive_retransmissions h) (
      rw syn (
        subst (λ xs. Resets c.segments_out xs) (sym out)
            (later-Resets c.segments_out q.segments_out _ (unclean_shutdown-Resets later)),
        state-IsReset _ (send_segments-IsReset false q (unclean_shutdown-IsReset later)),
      ))
