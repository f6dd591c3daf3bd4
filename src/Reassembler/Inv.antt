-- ===== src/Reassembler/Inv.antt =====
-- The invariant of libsponge/stream_reassembler.cc, relative to the stream that the peer sends:
-- `stream k` is its byte at place `k`.
use csed.Base.{
  ℕ, zero, suc, ◌+◌, ◌-◌, ◌≤◌, ◌<◌, ◌≡◌, ◌≢◌, refl, ap, ap₂, subst, ◌∙◌, Bool, not, ◌||◌, List, [],
  ◌∷◌, ◌++◌, arith, ltb, ◌==◌, u32_mod, length, get_or, take, drop, replicate, Bool-cases, inl, inr,
  length-take, take_all,
}
use csed.ByteStream
use csed.ByteStream.{ByteStream}
use csed.ByteStream.Inv
use csed.ByteStream.Inv.{contents, write-Wrote}
use csed.Reassembler.{Reassembler, count_assembled, write_segment}
use csed.Reassembler.Cells.{
  ones, ones-le, ones-append, ones-replicate, count_assembled-le, count_assembled_marked,
  count_assembled_stop, ones-drop, get_or-shift, get_or-shifted, length-shift,
}

-- The `n` bytes of a stream from place `start` on.
unfoldable pub slice : (ℕ → ℕ) → ℕ → ℕ → List ℕ
slice stream start zero = []
slice stream start (suc n) = stream start ∷ slice stream (start + 1) n

pub length-slice : (stream : ℕ → ℕ) (start n : ℕ) → length (slice stream start n) ≡ n
unfolding slice
length-slice stream start zero = refl
length-slice stream start (suc n) = ap suc (length-slice stream (start + 1) n)

pub get_or-slice :
    (stream : ℕ → ℕ) (start n i : ℕ)
    → i < n
    → get_or (slice stream start n) i 0 ≡ stream (start + i)
unfolding slice
get_or-slice stream start zero i h = absurd (omega arith)
get_or-slice stream start (suc n) zero h = ap stream (omega arith)
get_or-slice stream start (suc n) (suc i) h =
    get_or-slice stream (start + 1) n i (omega arith) ∙ ap stream (omega arith)

pub slice-append :
    (stream : ℕ → ℕ) (start m n k : ℕ)
    → k ≡ start + m
    → slice stream start m ++ slice stream k n ≡ slice stream start (m + n)
unfolding slice
slice-append stream start zero n k e =
    ap₂ (slice stream) {x = k} {y = start} (omega arith) (omega arith)
slice-append stream start (suc m) n k e =
    ap (◌∷◌ (stream start)) (slice-append stream (start + 1) m n k (omega arith))
    ∙ ap (slice stream start) {x = suc (m + n)} (omega arith)

pub record IsValid (r : Reassembler) : Type 0 where
  pub out : Inv.IsValid r.output
  -- The 32-bit counts of the output have not wrapped.
  pub unwrapped : r.output.bytes_written ≡ r.output.bytes_read + r.output.end_of_buffer
  pub same_capacity : r.output.capacity ≡ r.capacity
  pub sized : length r.buffer ≡ r.capacity
  pub sized_written : length r.written ≡ r.capacity
  pub counted : r.num_unassembled ≡ ones r.written
  -- Nothing is stored beyond what the output still has room for.
  pub room : (j : ℕ) → get_or r.written j 0 ≢ 0 → j + r.output.end_of_buffer < r.capacity

-- What is stored and what is held for the reader are bytes of the stream, at their places.
pub record IsFrom (stream : ℕ → ℕ) (r : Reassembler) : Type 0 where
  pub stored :
      (j : ℕ) → get_or r.written j 0 ≢ 0 → get_or r.buffer j 0 ≡ stream (r.output.bytes_written + j)
  pub held : contents r.output ≡ slice stream r.output.bytes_read r.output.end_of_buffer

-- Whether the byte at place `k` of the stream has come: it went out, or it is stored.
unfoldable pub known : Reassembler → ℕ → Bool
known r k =
    ltb k r.output.bytes_written || not (get_or r.written (k - r.output.bytes_written) 0 == 0)

-- What moving the assembled bytes to the output leaves: the first `n` places go out.
pub record Moved (r q : Reassembler) : Type 0 where
  pub count : ℕ
  pub valid : IsValid q
  pub total : q.output.bytes_written ≡ r.output.bytes_written + count
  pub grown : q.output.end_of_buffer ≡ r.output.end_of_buffer + count
  pub bytes : contents q.output ≡ contents r.output ++ take count r.buffer
  pub marks : (j : ℕ) → get_or q.written j 0 ≡ get_or r.written (count + j) 0
  pub places :
      (j : ℕ) → count + j < r.capacity → get_or q.buffer j 0 ≡ get_or r.buffer (count + j) 0
  pub assembled : (j : ℕ) → j < count → get_or r.written j 0 ≢ 0
  pub stopped : get_or q.written 0 0 ≡ 0
  pub same_read : q.output.bytes_read ≡ r.output.bytes_read
  pub capacity_kept : q.capacity ≡ r.capacity
  pub eof_kept : q.received_eof ≡ r.received_eof
  pub ended_kept : q.output.is_input_ended ≡ r.output.is_input_ended

pub write_segment-Moved :
    (r : Reassembler)
    → IsValid r
    → r.output.bytes_written + r.capacity < u32_mod
    → Moved r (write_segment r)
unfolding write_segment
write_segment-Moved r v small =
    let n = count_assembled r.capacity r.written in
    let n-le = count_assembled-le r.capacity r.written in
    let fits : n + r.output.end_of_buffer ≤ r.capacity = elim (Bool-cases (n == 0)) [
      | inl none' ↦ ground (arith, v.out.fits, v.same_capacity)
      | inr some' ↦
          let last =
            v.room (n - 1) (count_assembled_marked r.capacity r.written (n - 1) (ground arith)) in
          ground (arith, last)
    ] in
    let w = write-Wrote r.output (take n r.buffer) v.out in
    let len : length (take n r.buffer) ≡ n =
      omega (arith, length-take n r.buffer, v.sized, v.sized_written, n-le) in
    let took : (ByteStream.write r.output (take n r.buffer)).1 ≡ n =
      omega (arith, w.count, len, v.same_capacity, fits) in
    let shifted = ones-append (drop n r.written) (replicate n 0) in
    record {
      count = n;
      valid = record {
        out = w.valid;
        unwrapped = omega (arith, w.total, took, w.sized, w.same_read, v.unwrapped);
        same_capacity = w.same_capacity ∙ v.same_capacity;
        sized =
            length-shift n b' ' r.buffer (omega (arith, n-le, v.sized, v.sized_written)) ∙ v.sized;
        sized_written = length-shift n 0 r.written n-le ∙ v.sized_written;
        counted =
            let c = ones-drop r.capacity r.written in
            omega (arith, c, shifted, ones-replicate n, v.counted, ones-le r.written, v.out.small);
        room = λ j h.
            let earlier =
              v.room (n + j) (subst (λ m. m ≢ 0) (get_or-shift n j 0 r.written n-le) h) in
            omega (arith, earlier, w.sized, took);
      };
      total = omega (arith, w.total, took);
      grown = omega (arith, w.sized, took);
      bytes =
          w.bytes
          ∙ ap (λ k. contents r.output ++ k)
              (take_all _ (take n r.buffer) (omega (arith, took, len)));
      marks = λ j. get_or-shift n j 0 r.written n-le;
      places = λ j h. get_or-shifted n j r.buffer (replicate n b' ') (omega (arith, v.sized));
      assembled = λ j h. count_assembled_marked r.capacity r.written j h;
      stopped =
          get_or-shift n 0 0 r.written n-le
          ∙ ap (λ k. get_or r.written k 0) {y = n} (omega arith)
          ∙ count_assembled_stop r.capacity r.written (omega (arith, v.sized_written));
      same_read = w.same_read;
      capacity_kept = refl;
      eof_kept = refl;
      ended_kept = w.same_ended;
    }
