-- ===== src/ByteStream/Inv.antt =====
-- What each operation of libsponge/byte_stream.cc does to the bytes that the stream holds.
use csed.Base.{
  ℕ, zero, suc, ◌+◌, ◌-◌, ◌%◌, ◌≤◌, ◌<◌, min, ◌≡◌, refl, sym, ap, ◌∙◌, List, [], ◌∷◌, ◌++◌,
  append-nil, append_assoc, arith, u32_mod, u64_mod, ltb, length, get_or, set, take, drop,
  length-set, length-take, length-drop, length-replicate, get_or-set_self, get_or-set_ne,
  get_or-take, get_or-drop, list_ext, take-set_end, take-take, take-min, drop-min, if◌then◌else◌,
}
use native.Mathlib.Decide.{ℕ_discrete}
use csed.ByteStream.{
  ByteStream, new, remaining_capacity, write_loop, write, peek_output, shift_loop, pop_output, read,
}

-- The bytes written and not popped yet, oldest first.
abbrev pub contents : ByteStream → List ℕ
contents s = take s.end_of_buffer s.buffer

pub record IsValid (s : ByteStream) : Type 0 where
  pub array : length s.buffer ≡ s.capacity
  pub fits : s.end_of_buffer ≤ s.capacity
  pub small : s.capacity < u32_mod
  pub counted : s.bytes_written ≡ (s.bytes_read + s.end_of_buffer) % u32_mod

pub remaining_capacity_lem :
    (s : ByteStream) → IsValid s → remaining_capacity s ≡ s.capacity - s.end_of_buffer
unfolding remaining_capacity
remaining_capacity_lem s v = omega arith

pub length-contents : (s : ByteStream) → IsValid s → length (contents s) ≡ s.end_of_buffer
length-contents s v = omega (arith, length-take s.end_of_buffer s.buffer)

-- What the copying loop leaves.
record Copied (n : ℕ) (rest buffer : List ℕ) (end : ℕ) (out : List ℕ × ℕ) : Type 0 where
  moved : out.1 ≡ end + n
  sized : length out.0 ≡ length buffer
  bytes : take out.1 out.0 ≡ take end buffer ++ take n rest

write_loop-Copied :
    (n : ℕ) (rest buffer : List ℕ) (end : ℕ)
    → n ≤ length rest
    → end + n ≤ length buffer
    → length buffer < u32_mod
    → Copied n rest buffer end (write_loop n rest buffer end)
unfolding write_loop
write_loop-Copied zero rest buffer end h k l = record {
  moved = omega arith;
  sized = refl;
  bytes = rw append-nil refl;
}
write_loop-Copied (suc n) [] buffer end h k l = absurd (omega arith)
write_loop-Copied (suc n) (x ∷ rest) buffer end h k l =
    let e : (end + 1) % u32_mod ≡ end + 1 = omega arith in
    let ih =
      write_loop-Copied n rest (set buffer end x) (end + 1) (omega arith)
        (omega (arith, length-set buffer end x)) (omega (arith, length-set buffer end x)) in
    rw e (record {
      moved = omega (arith, ih.moved);
      sized = ih.sized ∙ length-set buffer end x;
      bytes =
          ih.bytes
          ∙ ap (λ k. k ++ take n rest)
              (take-set_end buffer end (end + 1) x (omega arith) (omega arith))
          ∙ append_assoc (take end buffer) (x ∷ []) (take n rest);
    })

-- `shift_loop` leaves the places before `i - len` alone, and moves the others down by `len`.
shift_loop_kept :
    (n i len : ℕ) (b : List ℕ) (j : ℕ)
    → len ≤ i
    → j + len < i
    → get_or (shift_loop n i len b) j 0 ≡ get_or b j 0
unfolding shift_loop
shift_loop_kept zero i len b j h k = refl
shift_loop_kept (suc n) i len b j h k =
    shift_loop_kept n (i + 1) len (set b (i - len) (get_or b i 0)) j (omega arith) (omega arith)
    ∙ get_or-set_ne b (i - len) j (get_or b i 0) 0 (omega arith)

shift_loop_moved :
    (n i len : ℕ) (b : List ℕ) (j : ℕ)
    → len ≤ i
    → i ≤ j + len
    → j + len < i + n
    → i + n ≤ length b
    → get_or (shift_loop n i len b) j 0 ≡ get_or b (j + len) 0
unfolding shift_loop
shift_loop_moved zero i len b j h k l m = absurd (omega arith)
shift_loop_moved (suc n) i len b j h k l m = elim (ℕ_discrete (j + len) i) [
  | yes e ↦
      shift_loop_kept n (i + 1) len (set b (i - len) (get_or b i 0)) j (omega arith) (omega arith)
      ∙ ap (λ p. get_or (set b p (get_or b i 0)) j 0) {x = i - len} {y = j} (omega arith)
      ∙ get_or-set_self b j (get_or b i 0) 0 (omega arith)
      ∙ ap (λ p. get_or b p 0) (omega arith)
  | no ne ↦
      shift_loop_moved n (i + 1) len (set b (i - len) (get_or b i 0)) j (omega arith) (omega arith)
        (omega arith) (omega (arith, length-set b (i - len) (get_or b i 0)))
      ∙ get_or-set_ne b (i - len) (j + len) (get_or b i 0) 0 (omega arith)
]

length-shift_loop : (n i len : ℕ) (b : List ℕ) → length (shift_loop n i len b) ≡ length b
unfolding shift_loop
length-shift_loop zero i len b = refl
length-shift_loop (suc n) i len b =
    length-shift_loop n (i + 1) len (set b (i - len) (get_or b i 0))
    ∙ length-set b (i - len) (get_or b i 0)

shift_loop_lem :
    (end len : ℕ) (b : List ℕ)
    → len ≤ end
    → end ≤ length b
    → take (end - len) (shift_loop (end - len) len len b) ≡ drop len (take end b)
shift_loop_lem end len b h k =
    list_ext _ _ 0
      (omega (
        arith,
        length-take (end - len) (shift_loop (end - len) len len b),
        length-shift_loop (end - len) len len b,
        length-drop len (take end b),
        length-take end b,
      ))
      λ i l.
        let l' : i < end - len =
          omega (arith, length-take (end - len) (shift_loop (end - len) len len b)) in
        get_or-take (end - len) i (shift_loop (end - len) len len b) 0 l'
        ∙ shift_loop_moved (end - len) len len b i (omega arith) (omega arith) (omega arith)
            (omega arith)
        ∙ ap (λ p. get_or b p 0) (omega arith)
        ∙ sym (get_or-take end (len + i) b 0 (omega arith))
        ∙ sym (get_or-drop len i (take end b) 0)

-- A write keeps the invariant, takes as many bytes as there is room for, in order, and changes
-- nothing else.
pub record Wrote (s : ByteStream) (data' : List ℕ) (out : ByteStream × ℕ) : Type 0 where
  pub valid : IsValid out.0
  pub count : out.1 ≡ min (length data') (s.capacity - s.end_of_buffer)
  pub bytes : contents out.0 ≡ contents s ++ take out.1 data'
  pub sized : out.0.end_of_buffer ≡ s.end_of_buffer + out.1
  pub total : out.0.bytes_written ≡ (s.bytes_written + out.1) % u32_mod
  pub same_read : out.0.bytes_read ≡ s.bytes_read
  pub same_capacity : out.0.capacity ≡ s.capacity
  pub same_ended : out.0.is_input_ended ≡ s.is_input_ended
  pub same_error : out.0.error ≡ s.error

pub write-Wrote : (s : ByteStream) (data' : List ℕ) → IsValid s → Wrote s data' (write s data')
unfolding write
write-Wrote s data' v =
    let n = min (length data') (remaining_capacity s) in
    let room = remaining_capacity_lem s v in
    let c =
      write_loop-Copied n data' s.buffer s.end_of_buffer (omega arith)
        (omega (arith, v.array, v.fits)) (omega (arith, v.array, v.small)) in
    record {
      valid = record {
        array = c.sized ∙ v.array;
        fits = omega (arith, c.moved);
        small = v.small;
        counted = omega (arith, c.moved, v.counted);
      };
      count = omega arith;
      bytes = c.bytes;
      sized = c.moved;
      total = refl;
      same_read = refl;
      same_capacity = refl;
      same_ended = refl;
      same_error = refl;
    }

-- A pop of at most the bytes held drops them from the front, and changes nothing else.
pub record Popped (s : ByteStream) (len : ℕ) (t : ByteStream) : Type 0 where
  pub valid : IsValid t
  pub bytes : contents t ≡ drop len (contents s)
  pub sized : t.end_of_buffer ≡ s.end_of_buffer - len
  pub total : t.bytes_read ≡ (s.bytes_read + len) % u32_mod
  pub same_written : t.bytes_written ≡ s.bytes_written
  pub same_capacity : t.capacity ≡ s.capacity
  pub same_ended : t.is_input_ended ≡ s.is_input_ended
  pub same_error : t.error ≡ s.error

pub pop_output-Popped :
    (s : ByteStream) (len : ℕ) → IsValid s → len ≤ s.end_of_buffer → Popped s len (pop_output s len)
unfolding pop_output
pop_output-Popped s len v h =
    let e : (s.end_of_buffer + u64_mod - len) % u32_mod ≡ s.end_of_buffer - len = omega arith in
    record {
      valid = record {
        array = length-shift_loop (s.end_of_buffer - len) len len s.buffer ∙ v.array;
        fits = omega arith;
        small = v.small;
        counted = omega arith;
      };
      bytes = rw e (shift_loop_lem s.end_of_buffer len s.buffer h (omega arith));
      sized = e;
      total = refl;
      same_written = refl;
      same_capacity = refl;
      same_ended = refl;
      same_error = refl;
    }

-- A read takes the first `len` bytes held, or all of them where there are fewer.
pub record ReadOut (s : ByteStream) (len : ℕ) (out : ByteStream × List ℕ) : Type 0 where
  pub popped : Popped s (min len s.end_of_buffer) out.0
  pub taken : out.1 ≡ take len (contents s)
  pub left : contents out.0 ≡ drop len (contents s)

pub read-ReadOut : (s : ByteStream) (len : ℕ) → IsValid s → ReadOut s len (read s len)
unfolding read peek_output
read-ReadOut s len v =
    let m = min len s.end_of_buffer in
    let e : (if ltb len s.end_of_buffer then len else s.end_of_buffer) ≡ m = ground arith in
    let p = pop_output-Popped s m v (omega arith) in
    let size = length-contents s v in
    rw e (record {
      popped = p;
      taken =
          sym (take-take m s.end_of_buffer s.buffer (omega arith))
          ∙ ap (λ k. take (min len k) (contents s)) (sym size)
          ∙ take-min len (contents s);
      left =
          p.bytes ∙ ap (λ k. drop (min len k) (contents s)) (sym size) ∙ drop-min len (contents s);
    })

-- A new stream of a capacity below 2^32 is valid and empty.
pub new-IsValid :
    (capacity : ℕ) → capacity < u32_mod → IsValid (new capacity) × (contents (new capacity) ≡ [])
unfolding new
new-IsValid capacity h = (
  record {
    array = length-replicate capacity b' ';
    fits = omega arith;
    small = h;
    counted = omega arith;
  },
  refl,
)
