-- ===== src/Sender/Fill.antt =====
-- `TCPSender::fill_window`: what it sends, in which order, and how far it goes.
use csed.Base.{
  ℕ, ◌+◌, ◌-◌, ◌%◌, ◌≤◌, ◌<◌, min, ◌≡◌, ◌⊎◌, refl, sym, ap, ap₂, subst, ◌∙◌, Bool, true, false, not,
  ◌&&◌, List, [], ◌∷◌, ◌++◌, append_assoc, arith, ltb, ◌==◌, if◌then◌else◌, u64_mod, length,
  length-take, take-append-drop, bit-le, inl, inr,
}
use csed.ByteStream
use csed.ByteStream.{ByteStream}
use csed.ByteStream.Inv.{contents, read-ReadOut, length-contents}
use csed.Segment.{TcpSegment, length_in_sequence_space}
use csed.Sender.{
  TcpSender, stamp, send_segment, max_payload_size, payload_size, data_segment, goes_on, fill_round,
}
use csed.Sender.Chain.{IsValid, IsRoomy, send_segment-Extended}

-- The payloads of segments, one after another.
unfoldable pub payloads : List TcpSegment → List ℕ
payloads [] = []
payloads (g ∷ gs) = g.payload ++ payloads gs

pub payloads-append : (xs ys : List TcpSegment) → payloads (xs ++ ys) ≡ payloads xs ++ payloads ys
unfolding payloads
payloads-append [] ys = refl
payloads-append (x ∷ xs) ys =
    ap (λ k. x.payload ++ k) (payloads-append xs ys)
    ∙ sym (append_assoc x.payload (payloads xs) (payloads ys))

-- No payload is longer than `MAX_PAYLOAD_SIZE`.
abbrev pub AllShort : List TcpSegment → Type 0
AllShort [] = Unit {0}
AllShort (g ∷ gs) = (length g.payload ≤ max_payload_size) × AllShort gs

-- What a round of the loop does when it is made: it sends one segment, with the bytes `payload` taken
-- from the stream and, if `last`, a FIN.
pub record Round (n : ℕ) (s : TcpSender) (n' : ℕ) (q : TcpSender) : Type 0 where
  pub payload : List ℕ
  pub last : Bool
  pub valid : IsValid q
  pub sent : q.segments_out ≡ s.segments_out ++ (stamp s (data_segment payload last) ∷ [])
  pub bytes : contents s.stream ≡ payload ++ contents q.stream
  pub next : q.next_seqno ≡ s.next_seqno + length payload + (if last then 1 else 0)
  pub short : length payload ≤ max_payload_size
  pub part : length payload ≤ payload_size n
  pub fits : length payload + (if last then 1 else 0) ≤ n
  pub uses : 0 < length payload + (if last then 1 else 0)
  pub left : last ≡ false → n' + payload_size n ≡ n
  pub whole :
      last ≡ false
      → (length payload ≡ payload_size n)
        ⊎ ((length (contents q.stream) ≡ 0) × (ByteStream.eof q.stream ≡ false))
  pub ended : q.fin ≡ last
  pub same_syn : q.syn ≡ s.syn
  pub same_checkpoint : q.checkpoint ≡ s.checkpoint
  pub same_rwnd : q.rwnd ≡ s.rwnd
  pub same_isn : q.isn ≡ s.isn

length-data_segment :
    (payload : List ℕ) (last : Bool)
    → length_in_sequence_space (data_segment payload last)
      ≡ length payload + (if last then 1 else 0)
unfolding data_segment length_in_sequence_space
length-data_segment payload last = omega arith

-- The arithmetic of a round: `p` bytes are read of the `held` ones.
record Amounts (n held p : ℕ) (ended last : Bool) (n' : ℕ) : Type 0 where
  short : p ≤ max_payload_size
  fits : p + (if last then 1 else 0) ≤ n
  uses : 0 < p + (if last then 1 else 0)
  left : last ≡ false → n' + payload_size n ≡ n
  whole :
      last ≡ false → (p ≡ payload_size n) ⊎ ((held - p ≡ 0) × ((ended && (held - p == 0)) ≡ false))

amounts :
    (n held : ℕ) (ended fin : Bool)
    → n < u64_mod
    → ((ltb 0 n && not fin) && not (not (ended && (held == 0)) && (held == 0))) ≡ true
    → let p = min (payload_size n) held in
      let last = (ended && (held - p == 0)) && ltb p n in
      Amounts n held p ended last
        (((if last then n - 1 else n) + u64_mod - payload_size n) % u64_mod)
unfolding payload_size
amounts n held ended fin small go = record {
  short = ground arith;
  fits = ground arith;
  uses = ground arith;
  left = ground arith;
  whole = ground arith;
}

module _ (n : ℕ) (s : TcpSender) (v : IsValid s) (small : n < u64_mod)
    (go : goes_on n s ≡ true) where
  size : ℕ
  size = payload_size n

  -- The stream after the read, and the bytes read.
  after : ByteStream
  after = (ByteStream.read s.stream size).0

  taken : List ℕ
  taken = (ByteStream.read s.stream size).1

  is_last : Bool
  is_last = ByteStream.eof after && ltb (length_in_sequence_space (data_segment taken false)) n

  length-taken : length taken ≡ min size s.stream.end_of_buffer
  unfolding taken after
  length-taken =
      let r = read-ReadOut s.stream size v.stream_valid in
      omega (
        arith,
        ap length r.taken,
        length-take size (contents s.stream),
        length-contents s.stream v.stream_valid,
      )

  eof-after :
      ByteStream.eof after
      ≡ (s.stream.is_input_ended && (s.stream.end_of_buffer - min size s.stream.end_of_buffer == 0))
  unfolding after ByteStream.eof
  eof-after =
      let r = read-ReadOut s.stream size v.stream_valid in
      ap₂ (λ b k. b && (k == 0)) r.popped.same_ended r.popped.sized

  is_last_lem :
      is_last
      ≡ (s.stream.is_input_ended && (s.stream.end_of_buffer - min size s.stream.end_of_buffer == 0))
        && ltb (min size s.stream.end_of_buffer) n
  unfolding is_last
  is_last_lem =
      ap₂ (λ b k. b && ltb k n) eof-after
        (length-data_segment taken false ∙ omega (arith, length-taken))

  round_counts :
      Amounts n s.stream.end_of_buffer
        (min size s.stream.end_of_buffer)
        s.stream.is_input_ended
        is_last
        (((if is_last then n - 1 else n) + u64_mod - size) % u64_mod)
  unfolding size goes_on ByteStream.eof
  round_counts =
      subst
        (λ l.
          Amounts n s.stream.end_of_buffer (min (payload_size n) s.stream.end_of_buffer)
            s.stream.is_input_ended l
            (((if l then n - 1 else n) + u64_mod - payload_size n) % u64_mod))
        (sym is_last_lem) (amounts n s.stream.end_of_buffer s.stream.is_input_ended s.fin small go)

  pub fill_round-Round :
      IsRoomy s → s.syn ≡ true → s.fin ≡ false → Round n s (fill_round n s).0 (fill_round n s).1
  unfolding fill_round size after taken is_last send_segment stamp
  fill_round-Round room syn open' =
      let r = read-ReadOut s.stream size v.stream_valid in
      let am = round_counts in
      let fits' = v.stream_valid.fits in
      let base = record s { stream = after; fin = if is_last then true else s.fin } in
      let seg = data_segment taken is_last in
      let len : length_in_sequence_space seg ≡ length taken + (if is_last then 1 else 0) =
        length-data_segment taken is_last in
      let x =
        send_segment-Extended base seg v.counted v.chain (omega (arith, len, length-taken, am.uses))
          (omega (arith, len, length-taken, am.short, bit-le is_last)) in
      record {
        payload = taken;
        last = is_last;
        valid = record {
          stream_valid = r.popped.valid;
          counted = x.counted;
          chain = x.chain;
          acked = omega (arith, x.next, v.acked);
          unacked = omega (arith, x.next, x.flying, v.unacked);
          running = λ e. refl;
          started = λ e. cc;
        };
        sent = refl;
        bytes =
            sym (take-append-drop size (contents s.stream)) ∙ ap₂ ◌++◌ (sym r.taken) (sym r.left);
        next = x.next ∙ omega (arith, len);
        short = omega (arith, am.short, length-taken);
        part = omega (arith, length-taken);
        fits = omega (arith, am.fits, length-taken);
        uses = omega (arith, am.uses, length-taken);
        left = am.left;
        whole = λ e. elim (am.whole e) [
          | inl full ↦ inl (omega (arith, full, length-taken))
          | inr dry ↦ inr (
            omega (arith, length-contents after r.popped.valid, r.popped.sized, dry),
            eof-after ∙ dry.1,
          )
        ];
        ended = ground (arith, open');
        same_syn = refl;
        same_checkpoint = refl;
        same_rwnd = refl;
        same_isn = refl;
      }
