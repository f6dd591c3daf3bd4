-- ===== src/Reassembler/Cells.antt =====
-- The two arrays of libsponge/stream_reassembler.cc: what storing and shifting do to each place.
use csed.Base.{
  ℕ, zero, suc, ◌+◌, ◌-◌, ◌≤◌, ◌<◌, ◌≡◌, ◌≢◌, refl, sym, ap, ◌∙◌, Bool, ◌&&◌, List, [], ◌∷◌, ◌++◌,
  arith, ltb, leb, ◌==◌, if◌then◌else◌, u32_mod, length, get_or, set, drop, replicate, length-set,
  get_or-set_self, get_or-set_ne, Bool-cases, inl, inr, get_or-append_left, get_or-append_right,
  get_or-drop, get_or-replicate, get_or_beyond, length-drop, length-append, length-replicate,
}
use native.Mathlib.Decide.{ℕ_discrete}
use csed.Reassembler.{Reassembler, store_byte, create_loop, count_assembled}

-- The places that are not 0.
pub ones : List ℕ → ℕ
ones [] = 0
ones (w ∷ ws) = (if w == 0 then 0 else 1) + ones ws

pub ones-le : (ws : List ℕ) → ones ws ≤ length ws
unfolding ones
ones-le [] = omega arith
ones-le (w ∷ ws) = ground (arith, ones-le ws)

pub ones-set :
    (ws : List ℕ) (i : ℕ) → i < length ws → get_or ws i 0 ≡ 0 → ones (set ws i 1) ≡ ones ws + 1
unfolding ones
ones-set [] i h e = absurd (omega arith)
ones-set (w ∷ ws) zero h e = ground arith
ones-set (w ∷ ws) (suc i) h e = omega (arith, ones-set ws i (omega arith) e)

pub ones-append : (xs ys : List ℕ) → ones (xs ++ ys) ≡ ones xs + ones ys
unfolding ones
ones-append [] ys = omega arith
ones-append (x ∷ xs) ys = omega (arith, ones-append xs ys)

pub ones-replicate : (n : ℕ) → ones (replicate n 0) ≡ 0
unfolding ones
ones-replicate zero = refl
ones-replicate (suc n) = omega (arith, ones-replicate n)

-- Where nothing is counted, every place is 0.
pub ones_zero : (ws : List ℕ) (i : ℕ) → ones ws ≡ 0 → get_or ws i 0 ≡ 0
unfolding ones
ones_zero [] i h = refl
ones_zero (w ∷ ws) zero h = ground arith
ones_zero (w ∷ ws) (suc i) h = ones_zero ws i (omega arith)

pub zero_ones : (ws : List ℕ) → ((i : ℕ) → get_or ws i 0 ≡ 0) → ones ws ≡ 0
unfolding ones
zero_ones [] h = refl
zero_ones (w ∷ ws) h = ground (arith, h 0, zero_ones ws (λ i. h (suc i)))

-- `count_assembled` counts the places before the first 0.
pub count_assembled-le : (n : ℕ) (ws : List ℕ) → count_assembled n ws ≤ length ws
unfolding count_assembled
count_assembled-le zero ws = omega arith
count_assembled-le (suc n) [] = omega arith
count_assembled-le (suc n) (w ∷ ws) = ground (arith, count_assembled-le n ws)

pub count_assembled_marked :
    (n : ℕ) (ws : List ℕ) (i : ℕ) → i < count_assembled n ws → get_or ws i 0 ≢ 0
unfolding count_assembled
count_assembled_marked zero ws i h = absurd (omega arith)
count_assembled_marked (suc n) [] i h = absurd (omega arith)
count_assembled_marked (suc n) (w ∷ ws) zero h = ground arith
count_assembled_marked (suc n) (w ∷ ws) (suc i) h = count_assembled_marked n ws i (ground arith)

pub count_assembled_stop :
    (n : ℕ) (ws : List ℕ) → length ws ≤ n → get_or ws (count_assembled n ws) 0 ≡ 0
unfolding count_assembled
count_assembled_stop zero [] h = refl
count_assembled_stop zero (w ∷ ws) h = absurd (omega arith)
count_assembled_stop (suc n) [] h = refl
count_assembled_stop (suc n) (w ∷ ws) h = ground (arith, count_assembled_stop n ws (omega arith))

pub ones-drop :
    (n : ℕ) (ws : List ℕ) → ones ws ≡ count_assembled n ws + ones (drop (count_assembled n ws) ws)
unfolding ones count_assembled
ones-drop zero ws = omega arith
ones-drop (suc n) [] = omega arith
ones-drop (suc n) (w ∷ ws) = ground (arith, ones-drop n ws)

-- A shifted array with padding behind it.
pub get_or-shift :
    (n j d : ℕ) (xs : List ℕ)
    → n ≤ length xs
    → get_or (drop n xs ++ replicate n d) j d ≡ get_or xs (n + j) d
get_or-shift n j d xs h = elim (Bool-cases (ltb j (length xs - n))) [
  | inl l ↦
      get_or-append_left (drop n xs) (replicate n d) j d (ground (arith, length-drop n xs))
      ∙ get_or-drop n j xs d
  | inr l ↦
      get_or-append_right (drop n xs) (replicate n d) j d (ground (arith, length-drop n xs))
      ∙ get_or-replicate n (j - length (drop n xs)) d
      ∙ sym (get_or_beyond xs (n + j) d (ground arith))
]

pub get_or-shifted :
    (n j : ℕ) (xs ys : List ℕ)
    → n + j < length xs
    → get_or (drop n xs ++ ys) j 0 ≡ get_or xs (n + j) 0
get_or-shifted n j xs ys h =
    get_or-append_left (drop n xs) ys j 0 (omega (arith, length-drop n xs)) ∙ get_or-drop n j xs 0

pub length-shift :
    (n d : ℕ) (xs : List ℕ) → n ≤ length xs → length (drop n xs ++ replicate n d) ≡ length xs
length-shift n d xs h =
    omega (arith, length-append (drop n xs) (replicate n d), length-drop n xs, length-replicate n d)

-- Whether the storing loop from `it` on, of `n` rounds, stores a byte at place `j`.
abbrev pub fresh : ℕ → ℕ → ℕ → ℕ → List ℕ → Bool
fresh n it first j written =
    leb it (first + j) && (ltb (first + j) (it + n) && (get_or written j 0 == 0))

-- What the storing loop leaves.
pub record Stored (n it first index : ℕ) (data' : List ℕ) (r q : Reassembler) : Type 0 where
  pub marks :
      (j : ℕ)
      → get_or q.written j 0 ≡ (if fresh n it first j r.written then 1 else get_or r.written j 0)
  pub bytes :
      (j : ℕ)
      → get_or q.buffer j 0 ≡ (
          if fresh n it first j r.written
          then get_or data' (first + j - index) 0
          else get_or r.buffer j 0)
  pub counted : q.num_unassembled ≡ ones q.written
  pub sized : length q.buffer ≡ length r.buffer
  pub sized_written : length q.written ≡ length r.written
  pub same_output : q.output ≡ r.output
  pub same_capacity : q.capacity ≡ r.capacity
  pub same_eof : q.received_eof ≡ r.received_eof

store_byte-Stored :
    (it first index : ℕ) (data' : List ℕ) (r : Reassembler)
    → first ≤ it
    → it < first + length r.written
    → length r.buffer ≡ length r.written
    → length r.written < u32_mod
    → r.num_unassembled ≡ ones r.written
    → Stored 1 it first index data' r (store_byte it first index data' r)
unfolding store_byte
store_byte-Stored it first index data' r a b c d e =
    elim (Bool-cases (get_or r.written (it - first) 0 == 0)) [
      | inl new ↦ rw new (record {
        marks = λ j. elim (ℕ_discrete (it - first) j) [
          | yes p ↦ ground (arith, get_or-set_self r.written j 1 0)
          | no p ↦ ground (arith, get_or-set_ne r.written (it - first) j 1 0 p)
        ];
        bytes = λ j. elim (ℕ_discrete (it - first) j) [
          | yes p ↦
              let same : get_or data' (it - index) 0 ≡ get_or data' (first + j - index) 0 =
                ap (λ k. get_or data' (k - index) 0) {y = first + j} (omega arith) in
              ground (arith, get_or-set_self r.buffer j x 0, same)
          | no p ↦ ground (arith, get_or-set_ne r.buffer (it - first) j x 0 p)
        ];
        counted = ground (arith, ones-set r.written (it - first), ones-le r.written);
        sized = length-set r.buffer (it - first) x;
        sized_written = length-set r.written (it - first) 1;
        same_output = refl;
        same_capacity = refl;
        same_eof = refl;
      })
      | inr old ↦ rw old (record {
        marks =
            λ j. elim (ℕ_discrete (it - first) j) [ yes p ↦ ground arith | no p ↦ ground arith ];
        bytes =
            λ j. elim (ℕ_discrete (it - first) j) [ yes p ↦ ground arith | no p ↦ ground arith ];
        counted = e;
        sized = refl;
        sized_written = refl;
        same_output = refl;
        same_capacity = refl;
        same_eof = refl;
      })
    ]
  where
    x : ℕ
    x = get_or data' (it - index) 0

Stored-trans :
    (n it first index : ℕ) (data' : List ℕ) (r q p : Reassembler)
    → Stored 1 it first index data' r q
    → Stored n (it + 1) first index data' q p
    → Stored (suc n) it first index data' r p
Stored-trans n it first index data' r q p g h = record {
  marks = λ j. ground (arith, g.marks j, h.marks j);
  bytes = λ j. ground (arith, g.marks j, g.bytes j, h.bytes j);
  counted = h.counted;
  sized = h.sized ∙ g.sized;
  sized_written = h.sized_written ∙ g.sized_written;
  same_output = h.same_output ∙ g.same_output;
  same_capacity = h.same_capacity ∙ g.same_capacity;
  same_eof = h.same_eof ∙ g.same_eof;
}

pub create_loop-Stored :
    (n it first index : ℕ) (data' : List ℕ) (r : Reassembler)
    → first ≤ it
    → n ≤ first + length r.written - it
    → length r.buffer ≡ length r.written
    → length r.written < u32_mod
    → r.num_unassembled ≡ ones r.written
    → Stored n it first index data' r (create_loop n it first index data' r)
unfolding create_loop
create_loop-Stored zero it first index data' r a b c d e = record {
  marks = λ j. ground arith;
  bytes = λ j. ground arith;
  counted = e;
  sized = refl;
  sized_written = refl;
  same_output = refl;
  same_capacity = refl;
  same_eof = refl;
}
create_loop-Stored (suc n) it first index data' r a b c d e =
    let q = store_byte it first index data' r in
    let g = store_byte-Stored it first index data' r a (omega arith) c d e in
    Stored-trans n it first index data' r q _ g (
      create_loop-Stored n (it + 1) first index data' q (omega arith)
        (omega (arith, g.sized_written)) (omega (arith, g.sized, g.sized_written))
        (omega (arith, g.sized_written)) g.counted)
