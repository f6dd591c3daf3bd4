-- ===== src/Buffer/Views.antt =====
-- `BufferViewList` of libsponge/util/buffer.hh and .cc, as the list of its views.
use csed.Base.{
  ℕ, zero, suc, ◌+◌, ◌-◌, ◌≤◌, ◌≡◌, refl, sym, ap, ap₂, subst, ◌∙◌, true, false, Option, none, some,
  List, [], ◌∷◌, ◌++◌, append-nil, map, arith, ltb, leb, ◌==◌, if◌then◌else◌, length, length-append,
  drop, Bool-cases, inl, inr,
}
use csed.Buffer.{BufferList, str}
use mathlib.Core.Option

-- `BufferViewList(const BufferList &)`.
unfoldable pub from_buffers : BufferList → List (List ℕ)
unfolding str
from_buffers bs = map str bs

unfoldable pub views_remove_prefix : List (List ℕ) → ℕ → Option (List (List ℕ))
views_remove_prefix [] n = if n == 0 then some [] else none
views_remove_prefix (v ∷ vs) n =
    let rest = views_remove_prefix vs (n - length v) in
    if n == 0 then some (v ∷ vs) else (if ltb n (length v) then some (drop n v ∷ vs) else rest)

unfoldable pub views_size_from : ℕ → List (List ℕ) → ℕ
views_size_from ret [] = ret
views_size_from ret (v ∷ vs) = views_size_from (ret + length v) vs

unfoldable pub views_size : List (List ℕ) → ℕ
unfolding views_size_from
views_size vs = views_size_from 0 vs

-- `BufferList::operator Buffer`, on the views of the buffers; `none` stands for the exception.
unfoldable pub as_buffer : List (List ℕ) → Option (List ℕ)
as_buffer [] = some []
as_buffer (v ∷ []) = some v
as_buffer (v ∷ w ∷ vs) = none

-- All bytes, in order.
abbrev pub flat : List (List ℕ) → List ℕ
flat [] = []
flat (v ∷ vs) = v ++ flat vs

pub flat_one : (v : List ℕ) → flat (v ∷ []) ≡ v
flat_one v = append-nil v

pub flat_two : (v w : List ℕ) → flat (v ∷ w ∷ []) ≡ v ++ w
flat_two v w = ap (λ xs. v ++ xs) (append-nil w)

-- Dropping bytes of a whole, or the failure to.
abbrev pub drop_all : List ℕ → ℕ → Option (List ℕ)
drop_all xs n = if leb n (length xs) then some (drop n xs) else none

drop-append_left : (v w : List ℕ) (n : ℕ) → n ≤ length v → drop n (v ++ w) ≡ drop n v ++ w
drop-append_left v w zero h = refl
drop-append_left [] w (suc n) h = absurd (omega arith)
drop-append_left (x ∷ v) w (suc n) h = drop-append_left v w n (omega (arith, h))

drop-append_right : (v w : List ℕ) (n : ℕ) → length v ≤ n → drop n (v ++ w) ≡ drop (n - length v) w
drop-append_right [] w n h = ap (λ k. drop k w) {x = n} (omega arith)
drop-append_right (x ∷ v) w zero h = absurd (omega arith)
drop-append_right (x ∷ v) w (suc n) h =
    drop-append_right v w n (omega (arith, h)) ∙ ap (λ k. drop k w) (omega arith)

pub drop_all_left :
    (v w : List ℕ) (n : ℕ) → n ≤ length v → drop_all (v ++ w) n ≡ some (drop n v ++ w)
drop_all_left v w n h =
    let fits : leb n (length (v ++ w)) ≡ true = ground (arith, length-append v w, h) in
    rw fits (ap some (drop-append_left v w n h))

pub drop_all_right :
    (v w : List ℕ) (n : ℕ) → length v ≤ n → drop_all (v ++ w) n ≡ drop_all w (n - length v)
drop_all_right v w n h =
    let same : leb n (length (v ++ w)) ≡ leb (n - length v) (length w) =
      ground (arith, length-append v w, h) in
    ap₂ (λ b xs. if b then some xs else none) same (drop-append_right v w n h)

-- `remove_prefix` on the views drops bytes of the whole string, and fails exactly if there are fewer.
pub views_remove_prefix_lem :
    (vs : List (List ℕ)) (n : ℕ) → Option.map flat (views_remove_prefix vs n) ≡ drop_all (flat vs) n
unfolding views_remove_prefix
views_remove_prefix_lem [] n = elim (Bool-cases (n == 0)) [
  | inl e ↦ let z : 0 ≡ n = ground (arith, e) in rw e (subst (λ k. some [] ≡ drop_all [] k) z refl)
  | inr e ↦ let no : leb n 0 ≡ false = ground (arith, e) in rw (e, no) refl
]
views_remove_prefix_lem (v ∷ vs) n = elim (Bool-cases (n == 0)) [
  | inl e ↦
      let z : 0 ≡ n = ground (arith, e) in
      rw e (
        subst (λ k. some (v ++ flat vs) ≡ drop_all (v ++ flat vs) k) z
          (sym (drop_all_left v (flat vs) 0 (omega arith))))
  | inr e ↦ elim (Bool-cases (ltb n (length v))) [
    | inl h ↦ rw (e, h) (sym (drop_all_left v (flat vs) n (ground (arith, h))))
    | inr h ↦
        rw (e, h)
          (views_remove_prefix_lem vs (n - length v)
            ∙ sym (drop_all_right v (flat vs) n (ground (arith, h))))
  ]
]

views_size_from_lem :
    (ret : ℕ) (vs : List (List ℕ)) → views_size_from ret vs ≡ ret + length (flat vs)
unfolding views_size_from
views_size_from_lem ret [] = omega arith
views_size_from_lem ret (v ∷ vs) =
    views_size_from_lem (ret + length v) vs ∙ omega (arith, length-append v (flat vs))

pub views_size_lem : (vs : List (List ℕ)) → views_size vs ≡ length (flat vs)
unfolding views_size
views_size_lem vs = views_size_from_lem 0 vs ∙ omega arith
