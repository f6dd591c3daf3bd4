-- ===== src/Checksum/Laws.antt =====
-- `InternetChecksum` of libsponge/util/util.cc: what it computes, and that a number summed with its own
-- checksum has the checksum 0.
use csed.Base.{
  ℕ, zero, suc, ◌+◌, ◌-◌, ◌*◌, ◌/◌, ◌%◌, ◌^◌, ◌≤◌, ◌<◌, ◌≡◌, refl, ap, ◌∙◌, Bool, true, false, not,
  List, [], ◌∷◌, ◌++◌, ltb, if◌then◌else◌, u16_mod, u32_mod, arith, length, replicate,
}
use csed.Parser.Roundtrip.{digits}
use csed.Checksum.{InternetChecksum, new, add, add_byte, fold, value}

-- The sum of the 16-bit words of a list of bytes, that begins at an even place or (`true`) an odd one.
abbrev pub words : Bool → List ℕ → ℕ
words odd [] = 0
words odd (b ∷ bs) = (if odd then b % 256 else b % 256 * 256) + words (not odd) bs

abbrev pub flips : Bool → List ℕ → Bool
flips odd [] = odd
flips odd (b ∷ bs) = flips (not odd) bs

pub words-append :
    (odd : Bool) (xs ys : List ℕ) → words odd (xs ++ ys) ≡ words odd xs + words (flips odd xs) ys
words-append odd [] ys = omega arith
words-append odd (x ∷ xs) ys = omega (arith, words-append (not odd) xs ys)

pub words-le : (odd : Bool) (xs : List ℕ) → words odd xs ≤ length xs * 65280
words-le odd [] = omega arith
words-le true (x ∷ xs) = omega (arith, words-le false xs)
words-le false (x ∷ xs) = omega (arith, words-le true xs)

-- `add` sums words, as long as the 32 bits are enough.
abbrev at : ℕ → Bool → InternetChecksum
at n odd = record { sum = n; parity = odd }

add_byte_lem :
    (c : InternetChecksum) (b : ℕ)
    → c.sum + 65280 < u32_mod
    → add_byte c b ≡ at (c.sum + (if c.parity then b % 256 else b % 256 * 256)) (not c.parity)
unfolding add_byte
add_byte_lem c b h = ap (λ n. at n (not c.parity)) (sum_lem c.parity)
  where
    sum_lem :
        (odd : Bool)
        → (c.sum + (if odd then b % 256 else b % 256 * 256 % u16_mod)) % u32_mod
          ≡ c.sum + (if odd then b % 256 else b % 256 * 256)
    sum_lem true = omega (arith, h)
    sum_lem false = omega (arith, h)

pub add_lem :
    (c : InternetChecksum) (xs : List ℕ)
    → c.sum + length xs * 65280 < u32_mod
    → add c xs ≡ record { sum = c.sum + words c.parity xs; parity = flips c.parity xs }
unfolding add
add_lem c [] h = ap (λ n. at n c.parity) {y = c.sum + 0} (omega arith)
add_lem c (b ∷ bs) h =
    let w = if c.parity then b % 256 else b % 256 * 256 in
    let le : w ≤ 65280 = byte-le c.parity in
    ap (λ d. add d bs) (add_byte_lem c b (omega (arith, h)))
    ∙ add_lem (at (c.sum + w) (not c.parity)) bs (omega (arith, h, le))
    ∙ ap (λ n. at n (flips (not c.parity) bs)) (omega arith)
  where
    byte-le : (odd : Bool) → (if odd then b % 256 else b % 256 * 256) ≤ 65280
    byte-le true = omega arith
    byte-le false = omega arith

-- The fixed point of the loop: at most 16 bits, equal to the sum modulo 2^16 - 1, and 0 only for 0.
pub record Folded (s r : ℕ) : Type 0 where
  pub small : r ≤ 0xffff
  pub same : r % 0xffff ≡ s % 0xffff
  pub below : r ≤ s
  pub positive : 0 < s → 0 < r

pub fold-Folded : (s : ℕ) → s < u32_mod → Folded s (fold 2 s)
unfolding fold
fold-Folded s h = record {
  small = ground arith;
  same = ground arith;
  below = ground arith;
  positive = λ p. ground arith;
}

fold_stop : (fuel s : ℕ) → s ≤ 0xffff → fold fuel s ≡ s
unfolding fold
fold_stop zero s h = refl
fold_stop (suc fuel) s h = let stop : ltb 0xffff s ≡ false = ground (arith, h) in rw stop refl

fold_more : (fuel s : ℕ) → s < u32_mod → fold (suc (suc fuel)) s ≡ fold 2 s
unfolding fold
fold_more fuel s h =
    let once = s / u16_mod + s % u16_mod in
    let twice = once / u16_mod + once % u16_mod in
    ap (λ n. if ltb 0xffff s then (if ltb 0xffff once then n else once) else s)
      (fold_stop fuel twice (omega (arith, h)))

-- On a 32-bit sum the loop that folds the carries ends after at most two rounds: any fuel from
-- two rounds on gives the same number. It fits 16 bits, is equal to the sum in one's complement
-- arithmetic (modulo 65535), and is zero only for the sum zero.
pub fold_terminates :
    (fuel s : ℕ)
    → s < u32_mod
    → (fold (suc (suc fuel)) s ≡ fold 2 s)
      × (fold 2 s ≤ 0xffff)
      × (fold 2 s % 0xffff ≡ s % 0xffff)
      × (0 < s → 0 < fold 2 s)
fold_terminates fuel s h =
    let f = fold-Folded s h in (fold_more fuel s h, f.small, f.same, f.positive)

-- A sum of 16-bit words that takes in its own checksum has the checksum zero: what a receiver tests.
-- The two together fit 32 bits.
pub value-add_value : (s : ℕ) → s + 0xffff < u32_mod → value (new (s + value (new s))) ≡ 0
unfolding value new
value-add_value s h =
    let f = fold-Folded s (omega arith) in
    let c = s + (u32_mod - 1 - fold 2 s) % u16_mod in
    let g = fold-Folded c (omega (arith, f.small)) in
    omega (arith, f.small, f.same, g.small, g.same, g.positive (omega (arith, f.small, f.below)))

pub value-words :
    (initial : ℕ) (xs : List ℕ)
    → initial + length xs * 65280 < u32_mod
    → value (add (new initial) xs) ≡ value (new (initial + words false xs))
unfolding value new
value-words initial xs h = ap value (add_lem (new initial) xs h)

-- Two bytes that hold a 16-bit number, at an even place, count for that number.
pub words-digits :
    (n : ℕ) (rest : List ℕ) → n < u16_mod → words false (digits 2 n ++ rest) ≡ n + words false rest
unfolding digits
words-digits n rest h = omega (arith, h)

pub words_zeros : (odd : Bool) (n : ℕ) → words odd (replicate n 0) ≡ 0
words_zeros odd zero = refl
words_zeros true (suc n) = omega (arith, words_zeros false n)
words_zeros false (suc n) = omega (arith, words_zeros true n)

pub add-append : (c : InternetChecksum) (xs ys : List ℕ) → add (add c xs) ys ≡ add c (xs ++ ys)
unfolding add
add-append c [] ys = refl
add-append c (x ∷ xs) ys = add-append (add_byte c x) xs ys

pub value-lt : (s : ℕ) → value (new s) < 2 ^ 16
unfolding value
value-lt s = omega arith
