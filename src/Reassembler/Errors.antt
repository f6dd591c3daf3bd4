-- ===== src/Reassembler/Errors.antt =====
-- `StreamReassembler::push_substring` leaves the error flag of its output alone, in every state.
use csed.Base.{
  ℕ, zero, suc, ◌≡◌, refl, ap, ◌∙◌, Bool, ◌&&◌, List, ◌==◌, Bool-cases, inl, inr, get_or, ◌-◌, ◌+◌,
  ◌%◌, min, max, length, u64_mod,
}
use csed.ByteStream
use csed.Reassembler.{
  Reassembler, store_byte, create_loop, create_segment, write_segment, note_eof, finish,
  push_substring, first_unassembled, first_unacceptable,
}

store_byte-error :
    (it first index : ℕ) (d : List ℕ) (r : Reassembler)
    → (store_byte it first index d r).output ≡ r.output
unfolding store_byte
store_byte-error it first index d r = elim (Bool-cases (get_or r.written (it - first) 0 == 0)) [
  | inl e ↦ rw e refl
  | inr e ↦ rw e refl
]

create_loop-error :
    (n it first index : ℕ) (d : List ℕ) (r : Reassembler)
    → (create_loop n it first index d r).output ≡ r.output
unfolding create_loop
create_loop-error zero it first index d r = refl
create_loop-error (suc n) it first index d r =
    create_loop-error n (it + 1) first index d _ ∙ store_byte-error it first index d r

note_eof-error : (eof : Bool) (a b : ℕ) (r : Reassembler) → (note_eof eof a b r).output ≡ r.output
unfolding note_eof
note_eof-error eof a b r = elim (Bool-cases (eof && (a == b))) [
  | inl e ↦ rw e refl
  | inr e ↦ rw e refl
]

finish-error : (r : Reassembler) → (finish r).output.error ≡ r.output.error
unfolding finish ByteStream.end_input
finish-error r = elim (Bool-cases (r.received_eof && (r.num_unassembled == 0))) [
  | inl e ↦ rw e refl
  | inr e ↦ rw e refl
]

write_segment-error : (r : Reassembler) → (write_segment r).output.error ≡ r.output.error
unfolding write_segment ByteStream.write
write_segment-error r = refl

pub push_substring-error :
    (r : Reassembler) (d : List ℕ) (index : ℕ) (eof : Bool)
    → (push_substring r d index eof).output.error ≡ r.output.error
unfolding push_substring create_segment
push_substring-error r d index eof =
    let first = first_unassembled r in
    let end = (index + length d) % u64_mod in
    let r_index = min (first_unacceptable r) end in
    let n = r_index - max first index in
    let noted = note_eof eof r_index end r in
    let made = create_loop n (max first index) first index d noted in
    finish-error (write_segment made)
    ∙ write_segment-error made
    ∙ ap (λ (o : ByteStream.ByteStream). o.error)
        (create_loop-error n (max first index) first index d noted
          ∙ note_eof-error eof r_index end r)
