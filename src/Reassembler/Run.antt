-- ===== src/Reassembler/Run.antt =====
-- Whole histories of libsponge/stream_reassembler.cc: substrings that arrive in any order, and
-- reads of the output in between.
use csed.Base.{
  ℕ, zero, suc, ◌+◌, ◌-◌, ◌≤◌, ◌<◌, min, ◌≡◌, refl, sym, ap, ap₂, subst, ◌∙◌, Bool, true, ◌&&◌,
  ◌||◌, List, [], ◌∷◌, ◌++◌, arith, leb, ◌==◌, u32_mod, length, take, drop, length-replicate,
  get_or-replicate, append_assoc,
}
use csed.ByteStream
use csed.ByteStream.{ByteStream}
use csed.ByteStream.Inv.{contents, read-ReadOut, new-IsValid}
use csed.Reassembler.{Reassembler, new, push_substring, write_segment}
use csed.Reassembler.Cells.{ones_zero, ones-replicate}
use csed.Reassembler.Inv.{IsValid, IsFrom, known, slice, slice-append}
use csed.Reassembler.Push.{
  Matches, InRange, in_window, push_substring-IsValid, known-push_substring, moved, moved-Moved,
  finish_lem, push_substring_lem, filled, filled-Filled, received_eof-filled,
}
use csed.Reassembler.Order.{push_substring-IsFrom}

-- `stream_out().read(n)`.
unfoldable pub read_out : Reassembler → ℕ → Reassembler × List ℕ
read_out r n = let (o, out) = ByteStream.read r.output n in (record r { output = o }, out)

pub data Event : Type 0 where
  push_event : List ℕ → ℕ → Bool → Event
  read_event : ℕ → Event

-- The reassembler after a history, and all that the reader got, in order.
unfoldable pub run : Reassembler → List Event → Reassembler × List ℕ
unfolding read_out
run r [] = (r, [])
run r (push_event d i eof ∷ es) = run (push_substring r d i eof) es
run r (read_event n ∷ es) =
    let (r', out) = read_out r n in let (q, rest) = run r' es in (q, out ++ rest)

-- A stream of `total` bytes, and what an honest peer sends of it: substrings at their places, with
-- the end mark on those that hold the last byte.
pub record IsHonest (stream : ℕ → ℕ) (total : ℕ) (d : List ℕ) (index : ℕ) (eof : Bool)
    : Type 0 where
  pub matches : Matches stream d index
  pub inside : index + length d ≤ total
  pub last : eof ≡ true → (index + length d ≡ total) × (0 < length d)

abbrev pub Honest : (ℕ → ℕ) → ℕ → List Event → Type 0
Honest stream total [] = Unit
Honest stream total (push_event d i eof ∷ es) =
    IsHonest stream total d i eof × Honest stream total es
Honest stream total (read_event n ∷ es) = Honest stream total es

pub record Good (stream : ℕ → ℕ) (total : ℕ) (r : Reassembler) : Type 0 where
  pub valid : IsValid r
  pub from : IsFrom stream r
  pub short : total + r.capacity < u32_mod
  pub below : r.output.bytes_written ≤ total
  pub within : (k : ℕ) → known r k ≡ true → k < total
  pub eof_known : r.received_eof ≡ true → (0 < total) × (known r (total - 1) ≡ true)
  pub ended : r.output.is_input_ended ≡ true → r.output.bytes_written ≡ total

-- With nothing stored, the last byte is known only once it went out.
known_out :
    (r : Reassembler) (k : ℕ)
    → IsValid r
    → r.num_unassembled ≡ 0
    → known r k ≡ true
    → k < r.output.bytes_written
unfolding known
known_out r k v e h =
    ground (arith, ones_zero r.written (k - r.output.bytes_written) (omega (arith, v.counted)))

-- What `push_substring` does to the counts and flags.
pub record Pushed (r : Reassembler) (d : List ℕ) (index : ℕ) (eof : Bool) (q : Reassembler)
    : Type 0 where
  pub grows : r.output.bytes_written ≤ q.output.bytes_written
  pub capacity_kept : q.capacity ≡ r.capacity
  pub eof_flag :
      q.received_eof
      ≡ (r.received_eof || (eof && leb (index + length d) (r.output.bytes_read + r.capacity)))
  pub end_flag :
      q.output.is_input_ended
      ≡ (r.output.is_input_ended || (q.received_eof && (q.num_unassembled == 0)))
  pub read_kept : q.output.bytes_read ≡ r.output.bytes_read

pub push_substring-Pushed :
    (r : Reassembler) (d : List ℕ) (index : ℕ) (eof : Bool)
    → IsValid r
    → InRange r d index
    → Pushed r d index eof (push_substring r d index eof)
unfolding moved
push_substring-Pushed r d index eof v small =
    let f = filled-Filled r d index eof v small in
    let m = moved-Moved r d index eof v small in
    let moved' = write_segment (filled r d index eof) in
    rw (push_substring_lem, finish_lem)
      (record {
        grows = omega (arith, m.total, ap (λ (o : ByteStream). o.bytes_written) f.same_output);
        capacity_kept = m.capacity_kept ∙ f.capacity_kept;
        eof_flag = m.eof_kept ∙ received_eof-filled r d index eof v small;
        end_flag =
            ap (λ b. b || (moved'.received_eof && (moved'.num_unassembled == 0)))
              (m.ended_kept ∙ ap (λ (o : ByteStream). o.is_input_ended) f.same_output);
        read_kept = m.same_read ∙ ap (λ (o : ByteStream). o.bytes_read) f.same_output;
      })

module _ (stream : ℕ → ℕ) (total : ℕ) where
  InRange-Good :
      (r : Reassembler) (d : List ℕ) (index : ℕ) (eof : Bool)
      → Good stream total r
      → IsHonest stream total d index eof
      → InRange r d index
  InRange-Good r d index eof g h = record {
    low = omega (arith, g.below, g.short);
    high = omega (arith, h.inside, g.short);
  }

  within_window :
      (r : Reassembler) (d : List ℕ) (index : ℕ) (eof : Bool) (k : ℕ)
      → Good stream total r
      → IsHonest stream total d index eof
      → (known r k || in_window r d index k) ≡ true
      → k < total
  unfolding in_window
  within_window r d index eof k g h e = ground (arith, g.within k, h.inside)

  below_lem :
      (q : Reassembler) → ((k : ℕ) → known q k ≡ true → k < total) → q.output.bytes_written ≤ total
  unfolding known
  below_lem q h = ground (arith, h (q.output.bytes_written - 1))

  eof_lem :
      (r : Reassembler) (d : List ℕ) (index : ℕ) (eof : Bool)
      → Good stream total r
      → IsHonest stream total d index eof
      → (r.received_eof || (eof && leb (index + length d) (r.output.bytes_read + r.capacity)))
        ≡ true
      → (0 < total) × ((known r (total - 1) || in_window r d index (total - 1)) ≡ true)
  unfolding in_window
  eof_lem r d index eof g h e = ground (arith, g.eof_known, h.last)

  pub push-Good :
      (r : Reassembler) (d : List ℕ) (index : ℕ) (eof : Bool)
      → Good stream total r
      → IsHonest stream total d index eof
      → Good stream total (push_substring r d index eof)
  push-Good r d index eof g h =
      let small = InRange-Good r d index eof g h in
      let q = push_substring r d index eof in
      let p = push_substring-Pushed r d index eof g.valid small in
      let v = push_substring-IsValid r d index eof g.valid small in
      let known-q = known-push_substring r d index eof g.valid small in
      let within' =
        λ (k : ℕ) (e : known q k ≡ true). within_window r d index eof k g h (sym (known-q k) ∙ e) in
      let below' = below_lem q within' in
      let eof' = λ (e : q.received_eof ≡ true). eof_lem r d index eof g h (sym p.eof_flag ∙ e) in
      let eof_known' : q.received_eof ≡ true → (0 < total) × (known q (total - 1) ≡ true) =
        λ e. ((eof' e).0, known-q (total - 1) ∙ (eof' e).1) in
      record {
        valid = v;
        from = push_substring-IsFrom stream r d index eof g.valid small h.matches g.from;
        short = rw p.capacity_kept g.short;
        below = below';
        within = within';
        eof_known = eof_known';
        ended = λ e.
            ground
              (arith, p.end_flag, g.ended, p.grows, below', eof_known', known_out q (total - 1) v);
      }

drop-slice :
    (stream : ℕ → ℕ) (start n m : ℕ)
    → drop m (slice stream start n) ≡ slice stream (start + m) (n - m)
unfolding slice
drop-slice stream start n zero =
    ap₂ (slice stream) {x = start} {y = start + 0} (omega arith) (omega arith)
drop-slice stream start zero (suc m) = ap (slice stream (start + suc m)) {x = 0} (omega arith)
drop-slice stream start (suc n) (suc m) =
    drop-slice stream (start + 1) n m
    ∙ ap₂ (slice stream) {x = start + 1 + m} {y = start + suc m} (omega arith) (omega arith)

module _ (stream : ℕ → ℕ) (total : ℕ) where
  pub read-Good :
      (r : Reassembler) (n : ℕ) → Good stream total r → Good stream total (read_out r n).0
  unfolding read_out known
  read-Good r n g =
      let o = read-ReadOut r.output n g.valid.out in
      let v = g.valid in
      let m : ℕ = min n r.output.end_of_buffer in
      let got : (ByteStream.read r.output n).0.bytes_read ≡ r.output.bytes_read + m =
        omega (arith, o.popped.total, v.unwrapped, g.below, g.short) in
      record {
        valid = record {
          out = o.popped.valid;
          unwrapped = omega (arith, got, o.popped.same_written, o.popped.sized, v.unwrapped);
          same_capacity = o.popped.same_capacity ∙ v.same_capacity;
          sized = v.sized;
          sized_written = v.sized_written;
          counted = v.counted;
          room = λ j h. omega (arith, v.room j h, o.popped.sized);
        };
        from = record {
          stored = λ j h. rw o.popped.same_written (g.from.stored j h);
          held =
              o.popped.bytes
              ∙ ap (drop m) g.from.held
              ∙ drop-slice stream r.output.bytes_read r.output.end_of_buffer m
              ∙ ap₂ (slice stream) (sym got) (sym o.popped.sized);
        };
        short = g.short;
        below = rw o.popped.same_written g.below;
        within = λ k e. g.within k (rw o.popped.same_written at e);
        eof_known = λ e. ((g.eof_known e).0, rw o.popped.same_written (g.eof_known e).1);
        ended = λ e. o.popped.same_written ∙ g.ended (sym o.popped.same_ended ∙ e);
      }

  take-slice : (start n k : ℕ) → take n (slice stream start k) ≡ slice stream start (min n k)
  unfolding slice
  take-slice start zero k = ap (slice stream start) {x = 0} (omega arith)
  take-slice start (suc n) zero = ap (slice stream start) {x = 0} (omega arith)
  take-slice start (suc n) (suc k) =
      ap (◌∷◌ (stream start)) (take-slice (start + 1) n k)
      ∙ ap (slice stream start) {x = suc (min n k)} (omega arith)

  -- What a history leaves.
  record Ran (r : Reassembler) (out : Reassembler × List ℕ) : Type 0 where
    good : Good stream total out.0
    grows : r.output.bytes_written ≤ out.0.output.bytes_written
    bytes :
        out.1 ++ contents out.0.output
        ≡ slice stream r.output.bytes_read (out.0.output.bytes_written - r.output.bytes_read)

  read-bytes :
      (r : Reassembler) (n w : ℕ) (rest left : List ℕ)
      → Good stream total r
      → r.output.bytes_written ≤ w
      → rest ++ left
        ≡ slice stream (read_out r n).0.output.bytes_read (w - (read_out r n).0.output.bytes_read)
      → ((read_out r n).1 ++ rest) ++ left
        ≡ slice stream r.output.bytes_read (w - r.output.bytes_read)
  unfolding read_out
  read-bytes r n w rest left g grows ih =
      let o = read-ReadOut r.output n g.valid.out in
      let m : ℕ = min n r.output.end_of_buffer in
      let got : (ByteStream.read r.output n).0.bytes_read ≡ r.output.bytes_read + m =
        omega (arith, o.popped.total, g.valid.unwrapped, g.below, g.short) in
      append_assoc (read_out r n).1 rest left
      ∙ ap₂ ◌++◌
          (o.taken
            ∙ ap (take n) g.from.held
            ∙ take-slice r.output.bytes_read n r.output.end_of_buffer)
          ih
      ∙ slice-append stream r.output.bytes_read m (w - (ByteStream.read r.output n).0.bytes_read)
          (ByteStream.read r.output n).0.bytes_read got
      ∙ ap (slice stream r.output.bytes_read) (omega (arith, got, g.valid.unwrapped))

  run-Ran :
      (r : Reassembler) (es : List Event)
      → Good stream total r
      → Honest stream total es
      → Ran r (run r es)
  unfolding run
  run-Ran r [] g h = record {
    good = g;
    grows = omega arith;
    bytes = g.from.held ∙ ap (slice stream r.output.bytes_read) (omega (arith, g.valid.unwrapped));
  }
  run-Ran r (push_event d i eof ∷ es) g h =
      let p = push_substring-Pushed r d i eof g.valid (InRange-Good stream total r d i eof g h.0) in
      let q = push_substring r d i eof in
      let ih = run-Ran q es (push-Good stream total r d i eof g h.0) h.1 in
      record {
        good = ih.good;
        grows = omega (arith, ih.grows, p.grows);
        bytes =
            ih.bytes ∙ ap (λ b. slice stream b ((run q es).0.output.bytes_written - b)) p.read_kept;
      }
  run-Ran r (read_event n ∷ es) g h =
      let q = (read_out r n).0 in
      let ih = run-Ran q es (read-Good r n g) h in
      let o = read-ReadOut r.output n g.valid.out in
      let grows' : r.output.bytes_written ≤ (run q es).0.output.bytes_written =
        subst (λ w. w ≤ (run q es).0.output.bytes_written) o.popped.same_written ih.grows in
      record {
        good = ih.good;
        grows = grows';
        bytes = read-bytes r n _ (run q es).1 (contents (run q es).0.output) g grows' ih.bytes;
      }

  pub new-Good : (capacity : ℕ) → total + capacity < u32_mod → Good stream total (new capacity)
  unfolding new ByteStream.new known slice
  new-Good capacity h =
      let b = (new-IsValid capacity (omega arith)).0 in
      record {
        valid = record {
          out = unfold ByteStream.new in b;
          unwrapped = omega arith;
          same_capacity = refl;
          sized = length-replicate capacity b' ';
          sized_written = length-replicate capacity 0;
          counted = sym (ones-replicate capacity);
          room = λ j e. absurd (e (get_or-replicate capacity j 0));
        };
        from = record { stored = λ j e. absurd (e (get_or-replicate capacity j 0)); held = refl };
        short = h;
        below = omega arith;
        within = λ k e. ground (arith, get_or-replicate {A = ℕ} capacity (k - 0) 0);
        eof_known = λ e. cc;
        ended = λ e. cc;
      }

  -- A new reassembler, given the substrings of a stream of `total` bytes in any order and with any
  -- overlaps and repeats, where the end mark comes with the last byte and `total + capacity` is below
  -- 2^32, and read at any times: what the reader got, followed by what it is still to get, is the
  -- first `bytes_written` bytes of the stream, of which there are at most `total`.
  pub run_in_order :
      (capacity : ℕ) (es : List Event)
      → total + capacity < u32_mod
      → Honest stream total es
      → let (q, out) = run (new capacity) es in
        (out ++ contents q.output ≡ slice stream 0 q.output.bytes_written)
        × (q.output.bytes_written ≤ total)
  unfolding new ByteStream.new
  run_in_order capacity es h honest =
      let x = run-Ran (new capacity) es (new-Good capacity h) honest in
      (x.bytes ∙ ap (slice stream 0) (omega arith), x.good.below)

  -- A new reassembler under the conditions of `run_in_order` (the substrings of a stream of
  -- `total` bytes, the end mark only with the last byte, `total + capacity` below 2^32): when the
  -- output reports the end of the input, what the reader got, followed by what it is still to get,
  -- is the whole stream.
  pub run_ended :
      (capacity : ℕ) (es : List Event)
      → total + capacity < u32_mod
      → Honest stream total es
      → (run (new capacity) es).0.output.is_input_ended ≡ true
      → let (q, out) = run (new capacity) es in out ++ contents q.output ≡ slice stream 0 total
  run_ended capacity es h honest e =
      let x = run-Ran (new capacity) es (new-Good capacity h) honest in
      (run_in_order capacity es h honest).0 ∙ ap (slice stream 0) (x.good.ended e)
