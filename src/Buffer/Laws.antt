-- ===== src/Buffer/Laws.antt =====
-- libsponge/util/buffer.cc: a list of buffers is the string of their bytes.
use csed.Base.{
  ℕ, zero, suc, ◌+◌, ◌-◌, ◌≡◌, refl, sym, ap, ap₂, ◌∙◌, true, false, Option, none, some, List, [],
  ◌∷◌, ◌++◌, append_assoc, append-nil, map, arith, ltb, leb, ◌==◌, if◌then◌else◌, length,
  length-append, drop, Bool-cases, inl, inr,
}
use mathlib.Core.Option
use csed.Buffer.{
  Buffer, BufferList, str, view, size, release, remove_prefix, append, concatenate,
  concatenate_from, size_from, list_size, put_front, list_remove_prefix,
}
use csed.Buffer.Views.{from_buffers, views_remove_prefix, views_remove_prefix_lem, flat, drop_all}

drop_nil : (n : ℕ) → drop {A = ℕ} n [] ≡ []
drop_nil zero = refl
drop_nil (suc n) = refl

drop-drop : (m n : ℕ) (xs : List ℕ) → drop n (drop m xs) ≡ drop (m + n) xs
drop-drop zero n xs = ap (λ k. drop k xs) {x = n} (omega arith)
drop-drop (suc m) n [] = drop_nil n ∙ sym (drop_nil (suc m + n))
drop-drop (suc m) n (x ∷ xs) =
    drop-drop m n xs ∙ ap (λ k. drop k (x ∷ xs)) {x = suc (m + n)} (omega arith)

drop_whole : (n : ℕ) (xs : List ℕ) → n ≡ length xs → drop n xs ≡ []
drop_whole zero [] h = refl
drop_whole zero (x ∷ xs) h = absurd (omega arith)
drop_whole (suc n) [] h = refl
drop_whole (suc n) (x ∷ xs) h = drop_whole n xs (omega (arith, h))

view-release :
    (s : Option (List ℕ)) (offset n : ℕ)
    → view (release s (offset + n)) (offset + n) ≡ drop n (view s offset)
unfolding view release
view-release none offset zero = refl
view-release none offset (suc n) = refl
view-release (some xs) offset n = elim (Bool-cases (offset + n == length xs)) [
  | inl e ↦ rw e (sym (drop-drop offset n xs ∙ drop_whole (offset + n) xs (ground (arith, e))))
  | inr e ↦ rw e (sym (drop-drop offset n xs))
]

-- Taking bytes off a buffer takes them off the string that it shows.
str-remove_prefix : (b : Buffer) (n : ℕ) → Option.map str (remove_prefix b n) ≡ drop_all (str b) n
unfolding remove_prefix str size
str-remove_prefix b n = elim (Bool-cases (ltb (length (view b.storage b.starting_offset)) n)) [
  | inl e ↦
      let short : leb n (length (view b.storage b.starting_offset)) ≡ false = ground (arith, e) in
      rw (e, short) refl
  | inr e ↦
      let long : leb n (length (view b.storage b.starting_offset)) ≡ true = ground (arith, e) in
      rw (e, long) (ap some (view-release b.storage b.starting_offset n))
]

put_front-views :
    (bs : BufferList) (m : Option Buffer) (v : List ℕ)
    → Option.map str m ≡ some v
    → Option.map from_buffers (put_front bs m) ≡ some (v ∷ from_buffers bs)
unfolding put_front from_buffers
put_front-views bs none v e = absurd (cc e)
put_front-views bs (some b) v e = ap (Option.map (λ w. w ∷ map str bs)) e

views-list_remove_prefix :
    (bs : BufferList) (n : ℕ)
    → Option.map from_buffers (list_remove_prefix bs n) ≡ views_remove_prefix (from_buffers bs) n
unfolding list_remove_prefix views_remove_prefix from_buffers size
views-list_remove_prefix [] n = elim (Bool-cases (n == 0)) [ inl e ↦ rw e refl | inr e ↦ rw e refl ]
views-list_remove_prefix (b ∷ bs) n = elim (Bool-cases (n == 0)) [
  | inl e ↦ rw e refl
  | inr e ↦ elim (Bool-cases (ltb n (length (str b)))) [
    | inl h ↦
        let fits : leb n (length (str b)) ≡ true = ground (arith, h) in
        rw (e, h)
          (put_front-views bs (remove_prefix b n) (drop n (str b))
            (str-remove_prefix b n ∙ ap (λ t. if t then some (drop n (str b)) else none) fits))
    | inr h ↦ rw (e, h) (views-list_remove_prefix bs (n - length (str b)))
  ]
]

concatenate_from_lem :
    (ret : List ℕ) (bs : BufferList) → concatenate_from ret bs ≡ ret ++ flat (from_buffers bs)
unfolding concatenate_from from_buffers
concatenate_from_lem ret [] = sym (append-nil ret)
concatenate_from_lem ret (b ∷ bs) =
    concatenate_from_lem (ret ++ str b) bs ∙ append_assoc ret (str b) (flat (map str bs))

concatenate-flat : (bs : BufferList) → concatenate bs ≡ flat (from_buffers bs)
unfolding concatenate
concatenate-flat bs = concatenate_from_lem [] bs

size_from_lem :
    (ret : ℕ) (bs : BufferList) → size_from ret bs ≡ ret + length (flat (from_buffers bs))
unfolding size_from size from_buffers
size_from_lem ret [] = omega arith
size_from_lem ret (b ∷ bs) =
    size_from_lem (ret + length (str b)) bs
    ∙ omega (arith, length-append (str b) (flat (map str bs)))

flat-append :
    (bs cs : BufferList)
    → flat (from_buffers (append bs cs)) ≡ flat (from_buffers bs) ++ flat (from_buffers cs)
unfolding append from_buffers
flat-append bs [] = sym (append-nil _)
flat-append bs (c ∷ cs) =
    flat-append (bs ++ (c ∷ [])) cs
    ∙ ap (λ xs. xs ++ flat (map str cs)) (flat_end bs)
    ∙ append_assoc (flat (map str bs)) (str c) (flat (map str cs))
  where
    flat_end : (ds : BufferList) → flat (map str (ds ++ (c ∷ []))) ≡ flat (map str ds) ++ str c
    flat_end [] = append-nil (str c)
    flat_end (d ∷ ds) = ap (λ xs. str d ++ xs) (flat_end ds) ∙ sym (append_assoc (str d) _ (str c))

-- A list of buffers behaves as the one string of its bytes: `append` puts strings together, `size` is
-- the length, and `remove_prefix` drops bytes from the front, failing exactly if there are fewer.
pub BufferList_lem :
    (bs cs : BufferList) (n : ℕ)
    → (concatenate (append bs cs) ≡ concatenate bs ++ concatenate cs)
      × (list_size bs ≡ length (concatenate bs))
      × (Option.map concatenate (list_remove_prefix bs n) ≡ drop_all (concatenate bs) n)
unfolding list_size
BufferList_lem bs cs n = (
  concatenate-flat (append bs cs)
      ∙ flat-append bs cs
      ∙ ap₂ ◌++◌ (sym (concatenate-flat bs)) (sym (concatenate-flat cs)),
  size_from_lem 0 bs ∙ omega (arith, ap length (concatenate-flat bs)),
  mapped (list_remove_prefix bs n)
      ∙ ap (Option.map flat) (views-list_remove_prefix bs n)
      ∙ views_remove_prefix_lem (from_buffers bs) n
      ∙ ap (λ xs. drop_all xs n) (sym (concatenate-flat bs)),
)
  where
    mapped :
        (m : Option BufferList)
        → Option.map concatenate m ≡ Option.map flat (Option.map from_buffers m)
    mapped none = refl
    mapped (some ds) = ap some (concatenate-flat ds)
