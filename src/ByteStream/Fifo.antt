-- ===== src/ByteStream/Fifo.antt =====
-- The contract of libsponge/byte_stream.hh: a bounded queue of bytes, and what a program that
-- writes, reads, ends the input and reports errors sees of it.
use csed.Base.{
  ℕ, ◌-◌, ◌≡◌, refl, sym, ap, ap₂, ◌∙◌, min, Bool, true, ◌&&◌, ◌==◌, List, [], ◌∷◌, ◌++◌,
  append_assoc, append-nil, arith, length, take, drop, take-append-drop, take-min,
}
use csed.ByteStream.{
  ByteStream, write, read, end_input, set_error, input_ended, buffer_size, buffer_empty, eof,
  remaining_capacity,
}
use csed.ByteStream.Inv.{
  contents, IsValid, write-Wrote, read-ReadOut, length-contents, remaining_capacity_lem,
}

pub record Fifo : Type 0 where
  pub capacity : ℕ
  pub items : List ℕ
  pub ended : Bool
  pub failed : Bool

-- The calls of a writer and a reader.
pub data Op : Type 0 where
  write_op : List ℕ → Op
  read_op : ℕ → Op
  end_op : Op
  error_op : Op

-- What a call returns, and what the accessors say after it.
pub record Reply : Type 0 where
  pub accepted : ℕ
  pub output : List ℕ
  pub size : ℕ
  pub room : ℕ
  pub is_empty : Bool
  pub has_ended : Bool
  pub is_eof : Bool
  pub has_failed : Bool

pub view : ByteStream → Fifo
view s = record {
  capacity = s.capacity;
  items = contents s;
  ended = s.is_input_ended;
  failed = s.error;
}

-- The stream's side: one call, its results, and the accessors.
observe : ByteStream → ℕ → List ℕ → Reply
unfolding remaining_capacity buffer_size buffer_empty input_ended eof
observe s n out = record {
  accepted = n;
  output = out;
  size = buffer_size s;
  room = remaining_capacity s;
  is_empty = buffer_empty s;
  has_ended = input_ended s;
  is_eof = eof s;
  has_failed = s.error;
}

unfoldable pub step : ByteStream → Op → ByteStream × Reply
unfolding observe write read end_input set_error
step s (write_op d) = let (t, n) = write s d in (t, observe t n [])
step s (read_op len) = let (t, out) = read s len in (t, observe t 0 out)
step s end_op = (end_input s, observe (end_input s) 0 [])
step s error_op = (set_error s, observe (set_error s) 0 [])

-- The queue's side.
observe_fifo : Fifo → ℕ → List ℕ → Reply
observe_fifo q n out = record {
  accepted = n;
  output = out;
  size = length q.items;
  room = q.capacity - length q.items;
  is_empty = length q.items == 0;
  has_ended = q.ended;
  is_eof = q.ended && (length q.items == 0);
  has_failed = q.failed;
}

-- As many bytes as there is room for go to the back; the front `len` bytes go out.
fifo_next : Fifo → Op → Fifo
fifo_next q (write_op d) = record q { items = q.items ++ take (q.capacity - length q.items) d }
fifo_next q (read_op len) = record q { items = drop len q.items }
fifo_next q end_op = record q { ended = true }
fifo_next q error_op = record q { failed = true }

pub fifo_step : Fifo → Op → Fifo × Reply
unfolding fifo_next observe_fifo
fifo_step q (write_op d) =
    let q' = fifo_next q (write_op d) in
    (q', observe_fifo q' (min (length d) (q.capacity - length q.items)) [])
fifo_step q (read_op len) =
    let q' = fifo_next q (read_op len) in (q', observe_fifo q' 0 (take len q.items))
fifo_step q end_op = let q' = fifo_next q end_op in (q', observe_fifo q' 0 [])
fifo_step q error_op = let q' = fifo_next q error_op in (q', observe_fifo q' 0 [])

pub run : ByteStream → List Op → List Reply
run s [] = []
run s (op ∷ ops) = let (t, r) = step s op in r ∷ run t ops

pub fifo_run : Fifo → List Op → List Reply
fifo_run q [] = []
fifo_run q (op ∷ ops) = let (q', r) = fifo_step q op in r ∷ fifo_run q' ops

observe-view :
    (s : ByteStream) (n : ℕ) (out : List ℕ)
    → IsValid s
    → observe s n out ≡ observe_fifo (view s) n out
unfolding observe observe_fifo view
observe-view s n out v = ground (arith, length-contents s v, remaining_capacity_lem s v)

step-IsValid : (s : ByteStream) (op : Op) → IsValid s → IsValid (step s op).0
unfolding step end_input set_error
step-IsValid s (write_op d) v = (write-Wrote s d v).valid
step-IsValid s (read_op len) v = (read-ReadOut s len v).popped.valid
step-IsValid s end_op v = record {
  array = v.array;
  fits = v.fits;
  small = v.small;
  counted = v.counted;
}
step-IsValid s error_op v = record {
  array = v.array;
  fits = v.fits;
  small = v.small;
  counted = v.counted;
}

view-step : (s : ByteStream) (op : Op) → IsValid s → view (step s op).0 ≡ fifo_next (view s) op
unfolding step fifo_next view end_input set_error
view-step s (write_op d) v =
    let w = write-Wrote s d v in
    let room : ℕ = s.capacity - s.end_of_buffer in
    let items =
      w.bytes
      ∙ ap (λ k. contents s ++ take k d) {y = min room (length d)} (w.count ∙ omega arith)
      ∙ ap (λ k. contents s ++ k) (take-min room d)
      ∙ ap (λ k. contents s ++ take (s.capacity - k) d) (sym (length-contents s v)) in
    λ i. record {
      capacity = w.same_capacity i;
      items = items i;
      ended = w.same_ended i;
      failed = w.same_error i;
    }
view-step s (read_op len) v =
    let r = read-ReadOut s len v in
    λ i. record {
      capacity = r.popped.same_capacity i;
      items = r.left i;
      ended = r.popped.same_ended i;
      failed = r.popped.same_error i;
    }
view-step s end_op v = refl
view-step s error_op v = refl

-- Each call leaves the stream standing for the queue that the same call on the queue leaves, with
-- the same results.
step_refines :
    (s : ByteStream) (op : Op)
    → IsValid s
    → (view (step s op).0 ≡ (fifo_step (view s) op).0) × ((step s op).1 ≡ (fifo_step (view s) op).1)
unfolding step fifo_step view
step_refines s (write_op d) v =
    let e = view-step s (write_op d) v in
    let t = (write s d).0 in
    let c =
      (write-Wrote s d v).count
      ∙ ap (λ k. min (length d) (s.capacity - k)) (sym (length-contents s v)) in
    (e, observe-view t _ [] (step-IsValid s (write_op d) v) ∙ ap₂ (λ q n. observe_fifo q n []) e c)
step_refines s (read_op len) v =
    let e = view-step s (read_op len) v in
    (
      e,
      observe-view (read s len).0 0 _ (step-IsValid s (read_op len) v)
          ∙ ap₂ (λ q out. observe_fifo q 0 out) e (read-ReadOut s len v).taken,
    )
step_refines s end_op v =
    let e = view-step s end_op v in
    (e, observe-view (end_input s) 0 [] (step-IsValid s end_op v) ∙ ap (λ q. observe_fifo q 0 []) e)
step_refines s error_op v =
    let e = view-step s error_op v in
    (
      e,
      observe-view (set_error s) 0 [] (step-IsValid s error_op v) ∙ ap (λ q. observe_fifo q 0 []) e,
    )

-- Any sequence of writes, reads, input ends and errors on a valid stream returns, call by call, what
-- the bounded queue of its contents returns: counts, bytes, size, room and the end and error flags.
pub run_refines : (s : ByteStream) (ops : List Op) → IsValid s → run s ops ≡ fifo_run (view s) ops
unfolding run fifo_run
run_refines s [] v = refl
run_refines s (op ∷ ops) v =
    let (q, r) = step_refines s op v in
    ap₂ ◌∷◌ r (run_refines (step s op).0 ops (step-IsValid s op v) ∙ ap (λ f. fifo_run f ops) q)

-- All the bytes that writes accepted, and all that reads returned, in order.
pub accepted_bytes : ByteStream → List Op → List ℕ
accepted_bytes s [] = []
accepted_bytes s (write_op d ∷ ops) = let (t, n) = write s d in take n d ++ accepted_bytes t ops
accepted_bytes s (op ∷ ops) = accepted_bytes (step s op).0 ops

unfoldable pub delivered_bytes : ByteStream → List Op → List ℕ
unfolding step
delivered_bytes s [] = []
delivered_bytes s (read_op len ∷ ops) = let (t, out) = read s len in out ++ delivered_bytes t ops
delivered_bytes s (op ∷ ops) = delivered_bytes (step s op).0 ops

pub final : ByteStream → List Op → ByteStream
final s [] = s
final s (op ∷ ops) = final (step s op).0 ops

-- From a valid stream, under any calls, nothing is lost, repeated or reordered: what reads
-- returned, followed by what is still held, is what was held at first, followed by what writes
-- accepted.
pub bytes_conserved :
    (s : ByteStream) (ops : List Op)
    → IsValid s
    → delivered_bytes s ops ++ contents (final s ops) ≡ contents s ++ accepted_bytes s ops
unfolding delivered_bytes accepted_bytes final step end_input set_error
bytes_conserved s [] v = sym (append-nil (contents s))
bytes_conserved s (write_op d ∷ ops) v =
    let w = write-Wrote s d v in
    bytes_conserved (step s (write_op d)).0 ops (step-IsValid s (write_op d) v)
    ∙ ap (λ k. k ++ accepted_bytes (write s d).0 ops) w.bytes
    ∙ append_assoc (contents s) (take (write s d).1 d) (accepted_bytes (write s d).0 ops)
bytes_conserved s (read_op len ∷ ops) v =
    let r = read-ReadOut s len v in
    let (t, out) = read s len in
    append_assoc out (delivered_bytes t ops) (contents (final t ops))
    ∙ ap (λ k. out ++ k) (bytes_conserved t ops (step-IsValid s (read_op len) v))
    ∙ ap₂ (λ h k. h ++ (k ++ accepted_bytes t ops)) r.taken r.left
    ∙ sym (append_assoc (take len (contents s)) (drop len (contents s)) (accepted_bytes t ops))
    ∙ ap (λ k. k ++ accepted_bytes t ops) (take-append-drop len (contents s))
bytes_conserved s (end_op ∷ ops) v = bytes_conserved (step s end_op).0 ops (step-IsValid s end_op v)
bytes_conserved s (error_op ∷ ops) v =
    bytes_conserved (step s error_op).0 ops (step-IsValid s error_op v)
