-- ===== src/Reassembler/Push.antt =====
-- What `StreamReassembler::push_substring` does, stage by stage and as a whole.
use csed.Base.{
  ℕ, ◌+◌, ◌-◌, ◌%◌, ◌<◌, min, max, ◌≡◌, ◌≢◌, refl, sym, ap, subst, subst₂, ◌∙◌, Bool, false, ◌&&◌,
  ◌||◌, List, arith, ltb, leb, ◌==◌, if◌then◌else◌, u32_mod, u64_mod, length, get_or, Bool-cases,
  inl, inr,
}
use csed.ByteStream
use csed.ByteStream.{ByteStream}
use csed.Reassembler.{
  Reassembler, new, create_loop, create_segment, write_segment, note_eof, finish, push_substring,
  first_unassembled, first_unacceptable,
}
use csed.Reassembler.Cells.{Stored, create_loop-Stored, fresh}
use csed.Reassembler.Inv.{IsValid, known, Moved, write_segment-Moved}

-- A substring that is the part of the stream at `index`.
abbrev pub Matches : (ℕ → ℕ) → List ℕ → ℕ → Type 0
Matches stream data' index = (i : ℕ) → i < length data' → get_or data' i 0 ≡ stream (index + i)

-- No place of the stream reaches 2^32 yet, and no place of the substring reaches 2^64.
pub record InRange (r : Reassembler) (data' : List ℕ) (index : ℕ) : Type 0 where
  pub low : r.output.bytes_written + r.capacity < u32_mod
  pub high : index + length data' < u64_mod

-- The substring's bytes that lie in the window: from the first place not sent out yet up to the
-- capacity beyond the bytes that the reader has taken.
unfoldable pub in_window : Reassembler → List ℕ → ℕ → ℕ → Bool
in_window r data' index k =
    leb index k && (ltb k (index + length data') && ltb k (r.output.bytes_read + r.capacity))

-- The reassembler after `note_eof` and `create_segment`.
pub filled : Reassembler → List ℕ → ℕ → Bool → Reassembler
filled r data' index eof =
    let end = (index + length data') % u64_mod in
    let r_index = min (first_unacceptable r) end in
    create_segment (first_unassembled r) index (max (first_unassembled r) index) r_index data'
      (note_eof eof r_index end r)

pub push_substring_lem :
    (r : Reassembler) (data' : List ℕ) (index : ℕ) (eof : Bool)
    → push_substring r data' index eof ≡ finish (write_segment (filled r data' index eof))
unfolding push_substring filled
push_substring_lem r data' index eof = refl

-- `note_eof` touches the flag alone.
pub note_eof_lem :
    (eof : Bool) (a b : ℕ) (r : Reassembler)
    → note_eof eof a b r ≡ record r { received_eof = r.received_eof || (eof && (a == b)) }
unfolding note_eof
note_eof_lem eof a b r = ground arith

pub first_unacceptable_lem :
    (r : Reassembler)
    → IsValid r
    → r.output.bytes_written + r.capacity < u32_mod
    → first_unacceptable r ≡ r.output.bytes_read + r.capacity
unfolding first_unacceptable first_unassembled ByteStream.buffer_size
first_unacceptable_lem r v h = omega (arith, v.unwrapped, v.same_capacity, v.out.fits)

-- What `create_segment` leaves, by the places of the stream.
pub record Filled (r : Reassembler) (data' : List ℕ) (index : ℕ) (q : Reassembler) : Type 0 where
  pub marks :
      (j : ℕ)
      → get_or q.written j 0 ≡ (
          if in_window r data' index (r.output.bytes_written + j) && (get_or r.written j 0 == 0)
          then 1
          else get_or r.written j 0)
  pub bytes :
      (j : ℕ)
      → get_or q.buffer j 0 ≡ (
          if in_window r data' index (r.output.bytes_written + j) && (get_or r.written j 0 == 0)
          then get_or data' (r.output.bytes_written + j - index) 0
          else get_or r.buffer j 0)
  pub valid : IsValid q
  pub same_output : q.output ≡ r.output
  pub capacity_kept : q.capacity ≡ r.capacity

module _ (r : Reassembler) (data' : List ℕ) (index : ℕ) (eof : Bool) (v : IsValid r)
    (small : InRange r data' index) where
  rounds : ℕ
  rounds = min (r.output.bytes_read + r.capacity) (index + length data')

  start : ℕ
  start = max r.output.bytes_written index

  fresh_window :
      (j : ℕ)
      → fresh (rounds - start) start r.output.bytes_written j r.written
        ≡ (in_window r data' index (r.output.bytes_written + j) && (get_or r.written j 0 == 0))
  unfolding rounds start in_window
  fresh_window j = ground arith

  filled_loop :
      filled r data' index eof
      ≡ create_loop
          (rounds - start)
          start
          r.output.bytes_written
          index
          data'
          (record r { received_eof = r.received_eof || (eof && (rounds == index + length data')) })
  unfolding filled create_segment first_unassembled rounds start
  filled_loop =
      let e : (index + length data') % u64_mod ≡ index + length data' = omega (arith, small.high) in
      rw (e, first_unacceptable_lem r v small.low, note_eof_lem) refl

  noted : Reassembler
  noted = record r { received_eof = r.received_eof || (eof && (rounds == index + length data')) }

  loop-Stored :
      Stored
        (rounds - start)
        start
        r.output.bytes_written
        index
        data'
        noted
        (create_loop (rounds - start) start r.output.bytes_written index data' noted)
  unfolding rounds start noted
  loop-Stored =
      create_loop-Stored (rounds - start) start r.output.bytes_written index data' noted
        (omega arith) (omega (arith, v.sized_written, v.unwrapped)) (v.sized ∙ sym v.sized_written)
        (omega (arith, v.sized_written, small.low)) v.counted

  mark_room :
      (j : ℕ)
      → (if in_window r data' index (r.output.bytes_written + j) && (get_or r.written j 0 == 0)
          then 1
          else get_or r.written j 0)
        ≢ 0
      → j + r.output.end_of_buffer < r.capacity
  unfolding in_window
  mark_room j h = ground (arith, v.room j, v.unwrapped)

  pub filled-Filled : Filled r data' index (filled r data' index eof)
  unfolding noted
  filled-Filled =
      let s = loop-Stored in
      let marks =
        λ (j : ℕ). s.marks j ∙ ap (λ b. if b then 1 else get_or r.written j 0) (fresh_window j) in
      rw filled_loop (record {
        marks = marks;
        bytes = λ j.
            s.bytes j
            ∙ ap
                (λ b.
                  if b
                  then get_or data' (r.output.bytes_written + j - index) 0
                  else get_or r.buffer j 0)
                (fresh_window j);
        valid = record {
          out = rw s.same_output v.out;
          unwrapped = rw s.same_output v.unwrapped;
          same_capacity = rw (s.same_output, s.same_capacity) v.same_capacity;
          sized = s.sized ∙ v.sized ∙ sym s.same_capacity;
          sized_written = s.sized_written ∙ v.sized_written ∙ sym s.same_capacity;
          counted = s.counted;
          room = λ j h.
              subst₂ (λ (o : ByteStream) c. j + o.end_of_buffer < c) (sym s.same_output)
                (sym s.same_capacity) (mark_room j (subst (λ m. m ≢ 0) (marks j) h));
        };
        same_output = s.same_output;
        capacity_kept = s.same_capacity;
      })

  pub received_eof-filled :
      (filled r data' index eof).received_eof
      ≡ (r.received_eof || (eof && leb (index + length data') (r.output.bytes_read + r.capacity)))
  unfolding noted rounds
  received_eof-filled = rw filled_loop (loop-Stored.same_eof ∙ ground arith)

-- The places of the stream that are known once the substring is stored: those known before, and
-- those of the substring in the window.
pub known-filled :
    (r : Reassembler) (data' : List ℕ) (index : ℕ) (eof : Bool) (k : ℕ)
    → IsValid r
    → InRange r data' index
    → known (filled r data' index eof) k ≡ known r k || in_window r data' index k
unfolding known
known-filled r data' index eof k v small =
    let f = filled-Filled r data' index eof v small in
    let m = f.marks (k - r.output.bytes_written) in
    rw f.same_output (elim (Bool-cases (ltb k r.output.bytes_written)) [
      | inl old ↦ rw old refl
      | inr new ↦
          let e : r.output.bytes_written + (k - r.output.bytes_written) ≡ k = ground arith in
          rw (new, m, e) (ground arith)
    ])

-- Moving bytes to the output changes nothing of what is known.
pub known-Moved : (r q : Reassembler) (k : ℕ) → Moved r q → known q k ≡ known r k
unfolding known
known-Moved r q k m = elim (Bool-cases (ltb k q.output.bytes_written)) [
  | inl out ↦ ground (arith, m.total, m.assembled (k - r.output.bytes_written))
  | inr kept ↦
      let i : m.count + (k - q.output.bytes_written) ≡ k - r.output.bytes_written =
        ground (arith, m.total) in
      let e = m.marks (k - q.output.bytes_written) ∙ ap (λ j. get_or r.written j 0) i in
      ground (arith, m.total, e)
]

-- What `finish` leaves: the end flag of the output may be set, and nothing else changes.
pub finish_lem :
    (r : Reassembler)
    → finish r ≡ record r {
      output = record (r.output) {
        is_input_ended = r.output.is_input_ended || (r.received_eof && (r.num_unassembled == 0));
      };
    }
unfolding finish ByteStream.end_input
finish_lem r = ground arith

pub finish-IsValid : (r : Reassembler) → IsValid r → IsValid (finish r)
finish-IsValid r v = rw finish_lem (record {
  out = record {
    array = v.out.array;
    fits = v.out.fits;
    small = v.out.small;
    counted = v.out.counted;
  };
  unwrapped = v.unwrapped;
  same_capacity = v.same_capacity;
  sized = v.sized;
  sized_written = v.sized_written;
  counted = v.counted;
  room = v.room;
})

pub known-finish : (r : Reassembler) (k : ℕ) → known (finish r) k ≡ known r k
unfolding known
known-finish r k = rw finish_lem refl

module _ (r : Reassembler) (data' : List ℕ) (index : ℕ) (eof : Bool) (v : IsValid r)
    (small : InRange r data' index) where
  -- The reassembler before `finish`.
  unfoldable pub moved : Reassembler
  moved = write_segment (filled r data' index eof)

  pub moved-Moved : Moved (filled r data' index eof) moved
  unfolding moved
  moved-Moved =
      let f = filled-Filled r data' index eof v small in
      write_segment-Moved (filled r data' index eof) f.valid (
        subst₂ (λ (o : ByteStream) c. o.bytes_written + c < u32_mod) (sym f.same_output)
          (sym f.capacity_kept) small.low)

  -- From a valid reassembler that is `InRange` (the bytes sent out and the capacity below 2^32,
  -- the end of the substring below 2^64), `push_substring` keeps the invariant.
  pub push_substring-IsValid : IsValid (push_substring r data' index eof)
  unfolding moved
  push_substring-IsValid = rw push_substring_lem (finish-IsValid _ (moved-Moved.valid))

  -- From a valid reassembler that is `InRange` (the bytes sent out and the capacity below 2^32,
  -- the end of the substring below 2^64), after `push_substring` exactly these places of the
  -- stream are known: those known before, and those of the substring that lie below the bytes the
  -- reader has taken plus the capacity.
  pub known-push_substring :
      (k : ℕ) → known (push_substring r data' index eof) k ≡ known r k || in_window r data' index k
  unfolding moved
  known-push_substring k =
      rw push_substring_lem (
        known-finish _ k ∙ known-Moved _ _ k moved-Moved ∙ known-filled r data' index eof k v small)

  -- From a valid reassembler that is `InRange` (the bytes sent out and the capacity below 2^32,
  -- the end of the substring below 2^64), after `push_substring` the first place not sent to the
  -- output is not known: all that could be put together was.
  pub push_substring_maximal :
      let q = push_substring r data' index eof in known q q.output.bytes_written ≡ false
  unfolding moved known
  push_substring_maximal = rw push_substring_lem (
      rw finish_lem (
        let e =
          ap (λ i. get_or moved.written i 0)
            {x = moved.output.bytes_written - moved.output.bytes_written} {y = 0} (omega arith) in
        ground (arith, e, moved-Moved.stopped)))
