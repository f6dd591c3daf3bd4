-- ===== src/Sender/Window.antt =====
-- The loop of `TCPSender::fill_window` as a whole.
use csed.Base.{
  ℕ, zero, suc, ◌+◌, ◌*◌, ◌^◌, ◌≤◌, ◌<◌, ◌≡◌, ◌⊎◌, refl, sym, ap, subst, ◌∙◌, true, false, not,
  ◌&&◌, List, [], ◌∷◌, ◌++◌, append_assoc, append-nil, arith, ltb, if◌then◌else◌, u64_mod, u32_mod,
  u16_mod, length, length-append, Bool-cases, inl, inr,
}
use csed.ByteStream
use csed.ByteStream.{ByteStream}
use csed.ByteStream.Inv.{contents, length-contents}
use csed.Segment.{TcpSegment, length_in_sequence_space, default_segment}
use csed.Sender.{
  TcpSender, stamp, send_segment, data_segment, goes_on, fill_round, fill_loop, window, can_send,
  fill_window,
}
use csed.Sender.Chain.{IsValid, send_segment-Extended}
use csed.Sender.Fill.{payloads, AllShort, Round, fill_round-Round}

-- Nothing is there to send yet.
abbrev pub IsDry : TcpSender → Type 0
IsDry s = (length (contents s.stream) ≡ 0) × (ByteStream.eof s.stream ≡ false)

-- The sequence number after all that the stream holds and the FIN.
abbrev pub to_send : TcpSender → ℕ
to_send s = s.next_seqno + s.stream.end_of_buffer + (if s.fin then 0 else 1)

-- What sending data up to the sequence number `limit` leaves.
pub record Sent (limit : ℕ) (s q : TcpSender) : Type 0 where
  pub valid : IsValid q
  pub new : List TcpSegment
  pub out : q.segments_out ≡ s.segments_out ++ new
  pub bytes : contents s.stream ≡ payloads new ++ contents q.stream
  pub short : AllShort new
  pub grows : s.next_seqno ≤ q.next_seqno
  pub within : q.next_seqno ≤ limit
  pub bounded : to_send q ≤ to_send s
  pub maximal : (q.fin ≡ true) ⊎ (q.next_seqno ≡ limit) ⊎ IsDry q
  pub same_syn : q.syn ≡ s.syn
  pub same_checkpoint : q.checkpoint ≡ s.checkpoint
  pub same_rwnd : q.rwnd ≡ s.rwnd

-- After the FIN the loop makes no round.
fill_loop_fin : (fuel n : ℕ) (s : TcpSender) → s.fin ≡ true → fill_loop fuel n s ≡ s
unfolding fill_loop goes_on
fill_loop_fin zero n s e = refl
fill_loop_fin (suc fuel) n s e =
    let stop : ((ltb 0 n && not s.fin)
          && not (not (ByteStream.eof s.stream) && ByteStream.buffer_empty s.stream))
        ≡ false =
      ground arith in
    rw stop refl

fill_loop_stop : (fuel n : ℕ) (s : TcpSender) → goes_on n s ≡ false → fill_loop fuel n s ≡ s
unfolding fill_loop
fill_loop_stop zero n s e = refl
fill_loop_stop (suc fuel) n s e = rw e refl

fill_loop_round :
    (fuel n : ℕ) (s : TcpSender)
    → goes_on n s ≡ true
    → fill_loop (suc fuel) n s ≡ fill_loop fuel (fill_round n s).0 (fill_round n s).1
unfolding fill_loop
fill_loop_round fuel n s e = rw e refl

-- How `n` stands to the limit.
abbrev Near : ℕ → ℕ → TcpSender → Type 0
Near limit n s = (s.next_seqno + n ≡ limit) ⊎ ((s.next_seqno + n ≤ limit) × IsDry s)

stopped :
    (limit n : ℕ) (s : TcpSender)
    → IsValid s
    → s.fin ≡ false
    → Near limit n s
    → goes_on n s ≡ false
    → (s.next_seqno ≤ limit) × ((s.fin ≡ true) ⊎ (s.next_seqno ≡ limit) ⊎ IsDry s)
unfolding goes_on ByteStream.buffer_empty
stopped limit n s v open' near stop = ground (arith, length-contents s.stream v.stream_valid)

-- A round, and then the rest.
prepend :
    (limit n n' : ℕ) (s q p : TcpSender)
    → (r : Round n s n' q) → length r.payload + q.stream.end_of_buffer ≡ s.stream.end_of_buffer
    → s.fin ≡ false
    → Sent limit q p
    → Sent limit s p
unfolding stamp data_segment payloads
prepend limit n n' s q p r held open' t = record {
  valid = t.valid;
  new = stamp s (data_segment r.payload r.last) ∷ t.new;
  out =
      t.out
      ∙ ap (λ k. k ++ t.new) r.sent
      ∙ append_assoc s.segments_out (stamp s (data_segment r.payload r.last) ∷ []) t.new;
  bytes =
      r.bytes
      ∙ ap (λ k. r.payload ++ k) t.bytes
      ∙ sym (append_assoc r.payload (payloads t.new) (contents p.stream));
  short = (r.short, t.short);
  grows = omega (arith, r.next, t.grows);
  within = t.within;
  bounded = ground (arith, t.bounded, held, r.next, r.ended);
  maximal = t.maximal;
  same_syn = t.same_syn ∙ r.same_syn;
  same_checkpoint = t.same_checkpoint ∙ r.same_checkpoint;
  same_rwnd = t.same_rwnd ∙ r.same_rwnd;
}

held-Round :
    (n n' : ℕ) (s q : TcpSender)
    → IsValid s
    → (r : Round n s n' q) → length r.payload + q.stream.end_of_buffer ≡ s.stream.end_of_buffer
held-Round n n' s q v r = omega (
  arith,
  ap length r.bytes,
  length-append r.payload (contents q.stream),
  length-contents s.stream v.stream_valid,
  length-contents q.stream r.valid.stream_valid,
)

-- Nothing more is sent after the FIN.
done :
    (limit : ℕ) (s : TcpSender) → IsValid s → s.fin ≡ true → s.next_seqno ≤ limit → Sent limit s s
unfolding payloads
done limit s v e w = record {
  valid = v;
  new = [];
  out = sym (append-nil s.segments_out);
  bytes = refl;
  short = tt;
  grows = omega arith;
  within = w;
  bounded = omega arith;
  maximal = inl e;
  same_syn = refl;
  same_checkpoint = refl;
  same_rwnd = refl;
}

-- Where a round is made, `n` is exactly what is left up to the limit.
exact :
    (limit n : ℕ) (s : TcpSender)
    → IsValid s
    → Near limit n s
    → goes_on n s ≡ true
    → s.next_seqno + n ≡ limit
unfolding goes_on ByteStream.buffer_empty
exact limit n s v near go = ground (arith, length-contents s.stream v.stream_valid)

next_close :
    (limit n n' : ℕ) (s q : TcpSender)
    → (r : Round n s n' q) → r.last ≡ false
    → s.next_seqno + n ≡ limit
    → Near limit n' q
next_close limit n n' s q r more e = elim (r.whole more) [
  | inl full ↦ inl (omega (arith, full, r.left more, r.next, rw more at r.next))
  | inr dry ↦ inr (omega (arith, r.left more, r.part, rw more at r.next), dry)
]

fill_loop-Sent :
    (fuel limit n : ℕ) (s : TcpSender)
    → s.stream.end_of_buffer < fuel
    → IsValid s
    → s.next_seqno + s.stream.end_of_buffer + u32_mod + 2 < 2 ^ 63
    → s.syn ≡ true
    → s.fin ≡ false
    → n < u64_mod
    → Near limit n s
    → Sent limit s (fill_loop fuel n s)
fill_loop-Sent zero limit n s enough v room syn open' small near = absurd (omega arith)
fill_loop-Sent (suc fuel) limit n s enough v room syn open' small near =
    elim (Bool-cases (goes_on n s)) [
      | inl go ↦
          let r = fill_round-Round n s v small go (omega arith) syn open' in
          let e = exact limit n s v near go in
          let (n', q) = fill_round n s in
          let held = held-Round n n' s q v r in
          rw (fill_loop_round fuel n s go) (
            prepend limit n n' s q _ r held open' (elim (Bool-cases r.last) [
              | inl last ↦
                  rw (fill_loop_fin fuel n' q (r.ended ∙ last))
                    (done limit q r.valid (r.ended ∙ last) (omega (arith, r.next, r.fits)))
              | inr more ↦
                  fill_loop-Sent fuel limit n' q (omega (arith, held, rw more at r.uses)) r.valid
                    (omega (arith, held, rw more at r.next)) (r.same_syn ∙ syn) (r.ended ∙ more)
                    (omega (arith, r.left more)) (next_close limit n n' s q r more e)
            ]))
      | inr stop ↦
          let (w, m) = stopped limit n s v open' near stop in
          rw (fill_loop_stop (suc fuel) n s stop) (record {
            valid = v;
            new = [];
            out = sym (append-nil s.segments_out);
            bytes = unfold payloads in refl;
            short = tt;
            grows = omega arith;
            within = w;
            bounded = omega arith;
            maximal = m;
            same_syn = refl;
            same_checkpoint = refl;
            same_rwnd = refl;
          })
    ]

-- One call is far from wrapping the 64-bit sequence numbers, and the window is a `uint16_t`.
pub record IsRoomy (s : TcpSender) : Type 0 where
  pub far : s.next_seqno + 2 * u32_mod + 2 < 2 ^ 63
  pub word : s.rwnd < u16_mod

window-pos : (s : TcpSender) → (0 < window s) × (window s ≤ s.rwnd + 1)
unfolding window
window-pos s = ground arith

can_send_inside :
    (s : TcpSender)
    → IsValid s
    → IsRoomy s
    → s.next_seqno ≤ s.checkpoint + window s
    → s.next_seqno + can_send s ≡ s.checkpoint + window s
unfolding can_send
can_send_inside s v room inside = omega (arith, v.acked, room.far, room.word, window-pos s)

can_send-lt : (s : TcpSender) → can_send s < u64_mod
unfolding can_send
can_send-lt s = omega arith

fill_window_loop :
    (s : TcpSender)
    → s.syn ≡ true
    → fill_window s ≡ fill_loop (s.stream.end_of_buffer + 2) (can_send s) s
unfolding fill_window
fill_window_loop s e = rw e refl

pub fill_window_up_to :
    (s : TcpSender)
    → IsValid s
    → IsRoomy s
    → s.syn ≡ true
    → s.fin ≡ false
    → Sent (s.next_seqno + can_send s) s (fill_window s)
fill_window_up_to s v room syn open' = rw (fill_window_loop s syn) (
    fill_loop-Sent (s.stream.end_of_buffer + 2) (s.next_seqno + can_send s) (can_send s) s
      (omega arith) v (omega (arith, room.far, v.stream_valid.fits, v.stream_valid.small)) syn open'
      (can_send-lt s) (inl refl))

-- For a valid sender with room below 2^63 and a 16-bit window, with the SYN sent and no FIN yet,
-- and the receiver's window (taken as 1 where it is 0) reaching at least the next sequence number,
-- `fill_window` keeps the invariant, sends segments of at most 1000 bytes that hold the next bytes
-- of the stream in order, goes nowhere beyond the window, and stops only when it has sent the FIN,
-- has filled the window, or has no byte and no end left to send.
pub fill_window-Sent :
    (s : TcpSender)
    → IsValid s
    → IsRoomy s
    → s.syn ≡ true
    → s.fin ≡ false
    → s.next_seqno ≤ s.checkpoint + window s
    → Sent (s.checkpoint + window s) s (fill_window s)
fill_window-Sent s v room syn open' inside =
    subst (λ limit. Sent limit s (fill_window s)) (can_send_inside s v room inside)
      (fill_window_up_to s v room syn open')

-- With the SYN and the FIN sent there is nothing left to send.
pub fill_window_fin : (s : TcpSender) → s.syn ≡ true → s.fin ≡ true → fill_window s ≡ s
fill_window_fin s syn fin =
    fill_window_loop s syn ∙ fill_loop_fin (s.stream.end_of_buffer + 2) (can_send s) s fin

length-syn :
    length_in_sequence_space
      (record (default_segment) { header = record (default_segment.header) { syn = true } })
    ≡ 1
unfolding length_in_sequence_space default_segment
length-syn = refl

-- On a valid sender with no SYN sent and nothing in flight, `fill_window` sends the SYN: the next
-- sequence number is 1, the SYN is noted, and the state is valid.
pub fill_window_syn :
    (s : TcpSender)
    → IsValid s
    → s.syn ≡ false
    → s.bytes_in_flight ≡ 0
    → IsValid (fill_window s)
      × ((fill_window s).syn ≡ true)
      × ((fill_window s).next_seqno ≡ 1)
      × ((fill_window s).bytes_in_flight ≡ 1)
      × ((fill_window s).is_timer_running ≡ true)
unfolding fill_window stamp
fill_window_syn s v e none' =
    let zero' = v.started e in
    let seg = record (default_segment) {
      header = record (default_segment.header) { syn = true };
    } in
    let x =
      send_segment-Extended s seg v.counted v.chain (omega (arith, length-syn))
        (omega (arith, length-syn)) in
    rw e (
      unfold send_segment in
      (
        record {
          stream_valid = v.stream_valid;
          counted = x.counted;
          chain = x.chain;
          acked = omega (arith, x.next, v.acked);
          unacked = omega (arith, x.next, x.flying, v.unacked);
          running = λ e. refl;
          started = λ e. cc;
        },
        refl,
        omega (arith, x.next, length-syn),
        omega (arith, x.flying, length-syn),
        refl,
      ))
