-- ===== src/Connection/Linger.antt =====
-- libsponge/tcp_connection.cc after both streams have finished: how long the connection stays.
use csed.Base.{
  ℕ, ◌%◌, ◌+◌, ◌*◌, ◌<◌, ◌≤◌, ◌≡◌, refl, sym, ap, ap₂, subst, ◌∙◌, Bool, true, false, not, ◌&&◌,
  ◌||◌, List, [], ◌∷◌, arith, ltb, leb, if◌then◌else◌, u64_mod,
}
use csed.ByteStream
use csed.Reassembler
use csed.Receiver
use csed.Sender
use csed.Sender.{TcpSender, OrderedSegment, is_empty}
use csed.Sender.Window.{fill_window_fin}
use csed.Connection.{
  TcpConfig, TcpConnection, inbound_stream, unassembled_bytes, bytes_in_flight, send_segments,
  clean_shutdown, streams_finished, flush, give_up, tick, max_retx_attempts,
}

-- Both streams have ended, all bytes and the FIN were sent and acknowledged, all that came was put
-- together, and the connection is to linger.
pub record Lingers (c : TcpConnection) : Type 0 where
  pub inbound_ended : c.receiver.reassembler.output.is_input_ended ≡ true
  pub assembled : c.receiver.reassembler.num_unassembled ≡ 0
  pub outbound_ended : c.sender.stream.is_input_ended ≡ true
  pub drained : c.sender.stream.end_of_buffer ≡ 0
  pub syn : c.sender.syn ≡ true
  pub fin : c.sender.fin ≡ true
  pub none_in_flight : c.sender.bytes_in_flight ≡ 0
  pub no_segments : c.sender.segments_in_flight ≡ []
  pub none_queued : c.sender.segments_out ≡ []
  pub few_retries : c.sender.n_consecutive_retransmissions ≤ max_retx_attempts
  pub lingering : c.linger_after_streams_finish ≡ true
  pub started : c.sent_syn ≡ true

-- The sender's `tick` with nothing in flight.
idle : TcpSender → TcpSender
idle s = record s { time_spent = 0; is_timer_running = false }

if_same : (b : Bool) (x y : TcpSender) → x ≡ y → (if b then x else y) ≡ y
if_same true x y e = e
if_same false x y e = refl

retransmit_none : (s : TcpSender) (ts : List OrderedSegment) → ts ≡ [] → Sender.retransmit s ts ≡ s
unfolding Sender.retransmit
retransmit_none s [] e = refl
retransmit_none s (t ∷ ts) e = absurd (cc e)

stop_timer_none : (s : TcpSender) → s.segments_in_flight ≡ [] → Sender.stop_timer s ≡ idle s
unfolding Sender.stop_timer idle
stop_timer_none s e =
    let h : is_empty s.segments_in_flight ≡ true = unfold is_empty in rw e refl in rw h refl

tick-idle : (s : TcpSender) (ms : ℕ) → s.segments_in_flight ≡ [] → Sender.tick s ms ≡ idle s
unfolding Sender.tick idle
tick-idle s ms e =
    let later = record s { time_spent = (s.time_spent + ms) % u64_mod } in
    ap Sender.stop_timer (
      if_same (leb s.rto ((s.time_spent + ms) % u64_mod)) _ later
        (retransmit_none later s.segments_in_flight e))
    ∙ stop_timer_none later e

-- What a call that sends nothing may change.
pub record Stays (c q : TcpConnection) : Type 0 where
  pub lingers : Lingers q
  pub active : q.is_active ≡ (
      if leb (10 * c.cfg.rt_timeout) c.time_since_last_segment_received then false else c.is_active)
  pub time : q.time_since_last_segment_received ≡ c.time_since_last_segment_received
  pub same_cfg : q.cfg ≡ c.cfg
  pub silent : q.segments_out ≡ c.segments_out

streams_finished-Lingers : (c : TcpConnection) → Lingers c → streams_finished c ≡ true
unfolding streams_finished inbound_stream unassembled_bytes bytes_in_flight ByteStream.input_ended
    Receiver.unassembled_bytes Reassembler.unassembled_bytes
streams_finished-Lingers c l =
    ground (arith, l.inbound_ended, l.assembled, l.outbound_ended, l.none_in_flight)

eof-Lingers : (c : TcpConnection) → Lingers c → ByteStream.eof c.sender.stream ≡ true
unfolding ByteStream.eof ByteStream.buffer_empty
eof-Lingers c l = ground (arith, l.outbound_ended, l.drained)

linger_bit : (a b x : Bool) → b ≡ true → (if a && not b then false else x) ≡ x
linger_bit a b x e = ground (arith, e)

active_bit :
    (f l t a : Bool)
    → f ≡ true
    → l ≡ true
    → (if f && (not l || t) then false else a) ≡ (if t then false else a)
active_bit f l t a e h = ground (arith, e, h)

clean_shutdown-Stays : (c : TcpConnection) → Lingers c → Stays c (clean_shutdown c)
unfolding clean_shutdown
clean_shutdown-Stays c l =
    let ended = ByteStream.input_ended (inbound_stream c) in
    let lingers =
      linger_bit ended (ByteStream.eof c.sender.stream) c.linger_after_streams_finish
        (eof-Lingers c l)
      ∙ l.lingering in
    record {
      lingers = record {
        inbound_ended = l.inbound_ended;
        assembled = l.assembled;
        outbound_ended = l.outbound_ended;
        drained = l.drained;
        syn = l.syn;
        fin = l.fin;
        none_in_flight = l.none_in_flight;
        no_segments = l.no_segments;
        none_queued = l.none_queued;
        few_retries = l.few_retries;
        lingering = lingers;
        started = l.started;
      };
      active =
          active_bit (streams_finished c) _ _ c.is_active (streams_finished-Lingers c l) lingers;
      time = refl;
      same_cfg = refl;
      silent = refl;
    }

-- `_send_segments`, with the sender that `fill_window` leaves.
sent : TcpConnection → TcpSender → TcpConnection
sent c s = record c {
  sent_syn = true;
  sender = record s { segments_out = [] };
  segments_out = flush c.receiver false s.segments_out c.segments_out;
}

send_segments-Stays : (c : TcpConnection) → Lingers c → Stays c (send_segments false c)
unfolding send_segments flush sent
send_segments-Stays c l =
    subst (λ s. Stays c (clean_shutdown (sent c s))) (sym (fill_window_fin c.sender l.syn l.fin))
      (let d = sent c c.sender in
        let s = clean_shutdown-Stays d (record {
          inbound_ended = l.inbound_ended;
          assembled = l.assembled;
          outbound_ended = l.outbound_ended;
          drained = l.drained;
          syn = l.syn;
          fin = l.fin;
          none_in_flight = l.none_in_flight;
          no_segments = l.no_segments;
          none_queued = refl;
          few_retries = l.few_retries;
          lingering = l.lingering;
          started = refl;
        }) in
        record {
          lingers = s.lingers;
          active = s.active;
          time = s.time;
          same_cfg = s.same_cfg;
          silent = s.silent ∙ ap (λ xs. flush c.receiver false xs c.segments_out) l.none_queued;
        })

-- The state in which `tick` comes to `_send_segments`.
later : TcpConnection → TcpSender → ℕ → TcpConnection
later c s ms = record c {
  sender = s;
  time_since_last_segment_received = (c.time_since_last_segment_received + ms) % u64_mod;
}

-- The official `tick`, less the tests that a lingering connection passes.
tick_lem :
    (c : TcpConnection) (ms : ℕ)
    → Lingers c
    → tick c ms ≡ send_segments false (later c (idle c.sender) ms)
unfolding tick give_up idle later
tick_lem c ms l =
    let d = later c (idle c.sender) ms in
    let few : ltb max_retx_attempts c.sender.n_consecutive_retransmissions ≡ false =
      ground (arith, l.few_retries) in
    ap (λ s. (let g = give_up (later c s ms) in if g.sent_syn then send_segments false g else g))
      (tick-idle c.sender ms l.no_segments)
    ∙ ap (λ g. if g.sent_syn then send_segments false g else g) (if_no _ _ d few)
    ∙ if_yes d.sent_syn _ d l.started
  where
    if_no : (b : Bool) (x y : TcpConnection) → b ≡ false → (if b then x else y) ≡ y
    if_no true x y e = absurd (cc e)
    if_no false x y e = refl

    if_yes : (b : Bool) (x y : TcpConnection) → b ≡ true → (if b then x else y) ≡ x
    if_yes true x y e = refl
    if_yes false x y e = absurd (cc e)

-- What a tick of a lingering connection does.
record Ticked (ms : ℕ) (c q : TcpConnection) : Type 0 where
  lingers : Lingers q
  active : q.is_active ≡ (
      if leb (10 * c.cfg.rt_timeout) (c.time_since_last_segment_received + ms)
      then false
      else c.is_active)
  time : q.time_since_last_segment_received ≡ c.time_since_last_segment_received + ms
  same_cfg : q.cfg ≡ c.cfg
  silent : q.segments_out ≡ c.segments_out

tick-Ticked :
    (c : TcpConnection) (ms : ℕ)
    → Lingers c
    → c.time_since_last_segment_received + ms < u64_mod
    → Ticked ms c (tick c ms)
unfolding idle later
tick-Ticked c ms l h =
    let d = later c (idle c.sender) ms in
    let s = send_segments-Stays d (record {
      inbound_ended = l.inbound_ended;
      assembled = l.assembled;
      outbound_ended = l.outbound_ended;
      drained = l.drained;
      syn = l.syn;
      fin = l.fin;
      none_in_flight = l.none_in_flight;
      no_segments = l.no_segments;
      none_queued = l.none_queued;
      few_retries = l.few_retries;
      lingering = l.lingering;
      started = l.started;
    }) in
    let t : d.time_since_last_segment_received ≡ c.time_since_last_segment_received + ms =
      omega (arith, h) in
    subst (λ q. Ticked ms c q) (sym (tick_lem c ms l))
      (record {
        lingers = s.lingers;
        active =
            s.active ∙ ap (λ n. if leb (10 * c.cfg.rt_timeout) n then false else c.is_active) t;
        time = s.time ∙ t;
        same_cfg = s.same_cfg;
        silent = s.silent;
      })

-- A sequence of ticks, and the time it takes.
unfoldable pub ticks : TcpConnection → List ℕ → TcpConnection
ticks c [] = c
ticks c (ms ∷ mss) = ticks (tick c ms) mss

abbrev pub sum : List ℕ → ℕ
sum [] = 0
sum (ms ∷ mss) = ms + sum mss

-- A connection that `Lingers`, and is active exactly if fewer than ten timeouts passed since the last
-- segment came, sends nothing in any sequence of ticks, whose times do not pass 2^64, and is
-- active after it exactly if fewer than ten timeouts passed in all.
pub linger_ticks :
    (c : TcpConnection) (mss : List ℕ)
    → Lingers c
    → c.time_since_last_segment_received + sum mss < u64_mod
    → c.is_active ≡ ltb c.time_since_last_segment_received (10 * c.cfg.rt_timeout)
    → let q = ticks c mss in
      (q.is_active ≡ ltb (c.time_since_last_segment_received + sum mss) (10 * c.cfg.rt_timeout))
      × (q.segments_out ≡ c.segments_out)
unfolding ticks
linger_ticks c [] l h a = (
  a
      ∙ ap (λ n. ltb n (10 * c.cfg.rt_timeout)) {y = c.time_since_last_segment_received + 0}
          (omega arith),
  refl,
)
linger_ticks c (ms ∷ mss) l h a =
    let t = tick-Ticked c ms l (omega (arith, h)) in
    let q = tick c ms in
    let cfg = ap (λ (g : TcpConfig). 10 * g.rt_timeout) t.same_cfg in
    let now : q.is_active ≡ ltb q.time_since_last_segment_received (10 * q.cfg.rt_timeout) =
      ground (arith, t.active, t.time, cfg, a) in
    let rest = linger_ticks q mss t.lingers (omega (arith, t.time, h)) now in
    (rest.0 ∙ ap₂ ltb (omega (arith, t.time)) cfg, rest.1 ∙ t.silent)
