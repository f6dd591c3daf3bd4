-- ===== src/Reassembler/Order.antt =====
-- `StreamReassembler::push_substring` against the stream that the substrings are cut from.
use csed.Base.{
  ℕ, ◌+◌, ◌-◌, ◌≤◌, ◌≡◌, ◌≢◌, refl, sym, ap, ap₂, subst, ◌∙◌, Bool, ◌&&◌, List, ◌++◌, arith, ◌==◌,
  length, get_or, take, Bool-cases, inl, inr, length-take, get_or-take, list_ext,
}
use csed.Reassembler.{Reassembler, finish, push_substring}
use csed.Reassembler.Inv.{IsValid, IsFrom, Moved, slice, slice-append, length-slice, get_or-slice}
use csed.Reassembler.Push.{
  Matches, InRange, in_window, Filled, filled-Filled, moved, moved-Moved, finish_lem,
  push_substring_lem,
}

module _ (stream : ℕ → ℕ) where
  stored_bytes_lem :
      (r q : Reassembler) (data' : List ℕ) (index : ℕ)
      → IsValid r
      → Matches stream data' index
      → IsFrom stream r
      → Filled r data' index q
      → IsFrom stream q
  unfolding in_window
  stored_bytes_lem r q data' index v m g f = record {
    stored = λ j h.
        rw f.same_output
          (elim (Bool-cases
            (in_window r data' index (r.output.bytes_written + j) && (get_or r.written j 0 == 0))) [
              | inl y ↦
                  let at =
                    ap stream {x = index + (r.output.bytes_written + j - index)}
                      {y = r.output.bytes_written + j} (ground arith) in
                  f.bytes j ∙ rw y (m (r.output.bytes_written + j - index) (ground arith) ∙ at)
              | inr n ↦ f.bytes j ∙ rw n (g.stored j (subst (λ k. k ≢ 0) (f.marks j ∙ rw n refl) h))
            ]);
    held = rw f.same_output g.held;
  }

  taken-slice :
      (r q : Reassembler)
      → IsValid r
      → IsFrom stream r
      → (m : Moved r q) → take m.count r.buffer ≡ slice stream r.output.bytes_written m.count
  taken-slice r q v g m =
      let fits : m.count ≤ length r.buffer =
        omega (arith, m.grown, m.valid.out.fits, m.valid.same_capacity, m.capacity_kept, v.sized) in
      let sized : length (take m.count r.buffer) ≡ m.count =
        omega (arith, length-take m.count r.buffer) in
      list_ext _ _ 0 (sized ∙ sym (length-slice stream r.output.bytes_written m.count)) λ i h.
        get_or-take m.count i r.buffer 0 (omega arith)
        ∙ g.stored i (m.assembled i (omega arith))
        ∙ sym (get_or-slice stream r.output.bytes_written m.count i (omega arith))

  sent_bytes_lem : (r q : Reassembler) → IsValid r → IsFrom stream r → Moved r q → IsFrom stream q
  sent_bytes_lem r q v g m = record {
    stored = λ j h.
        let marked = subst (λ k. k ≢ 0) (m.marks j) h in
        m.places j (omega (arith, v.room (m.count + j) marked))
        ∙ g.stored (m.count + j) marked
        ∙ ap stream (omega (arith, m.total));
    held =
        m.bytes
        ∙ ap₂ ◌++◌ g.held (taken-slice r q v g m)
        ∙ slice-append stream r.output.bytes_read r.output.end_of_buffer m.count
            r.output.bytes_written v.unwrapped
        ∙ ap₂ (slice stream) (sym m.same_read) (sym m.grown);
  }

  finish-IsFrom : (r : Reassembler) → IsFrom stream r → IsFrom stream (finish r)
  finish-IsFrom r g = rw finish_lem (record { stored = g.stored; held = g.held })

  -- A substring that is cut from the stream leaves only bytes of the stream stored, at their
  -- places, and what the reader is still to get is the stretch of the stream that follows what it
  -- has taken.
  pub push_substring-IsFrom :
      (r : Reassembler) (data' : List ℕ) (index : ℕ) (eof : Bool)
      → IsValid r
      → InRange r data' index
      → Matches stream data' index
      → IsFrom stream r
      → IsFrom stream (push_substring r data' index eof)
  unfolding moved
  push_substring-IsFrom r data' index eof v small m g =
      let f = filled-Filled r data' index eof v small in
      rw push_substring_lem (
        finish-IsFrom _ (
          sent_bytes_lem _ _ f.valid (stored_bytes_lem r _ data' index v m g f)
            (moved-Moved r data' index eof v small)))
