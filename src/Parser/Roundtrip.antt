-- ===== src/Parser/Roundtrip.antt =====
-- libsponge/util/parser.cc: what is written is read back.
use csed.Base.{
  ℕ, zero, suc, ◌/◌, ◌%◌, ◌^◌, ◌<◌, ◌≡◌, refl, false, sym, ap, ap₂, ◌∙◌, List, [], ◌∷◌, ◌++◌,
  append_assoc, append-nil, arith, length, length-append, take-append_self, drop-append_self, ltb,
}
use csed.Parser.{
  unparse_int, Parse, ◌>>=◌, NetParser, from_buffer, parse_int, u8, u16, u32, unparse_loop,
  read_bytes, check_size, is_error,
}

-- The bytes that `_unparse_int` appends.
unfoldable pub digits : ℕ → ℕ → List ℕ
digits zero val = []
digits (suc n) val = val / 256 ^ n % 256 ∷ digits n val

pub unparse_loop_lem : (n : ℕ) (s : List ℕ) (val : ℕ) → unparse_loop n s val ≡ s ++ digits n val
unfolding unparse_loop digits
unparse_loop_lem zero s val = sym (append-nil s)
unparse_loop_lem (suc n) s val = unparse_loop_lem n _ val ∙ append_assoc s _ (digits n val)

parse_int_lem :
    (xs rest : List ℕ)
    → parse_int (length xs) (from_buffer (xs ++ rest))
      ≡ (from_buffer rest, read_bytes (length xs) xs 0)
unfolding parse_int check_size is_error
parse_int_lem xs rest =
    let fits : ltb (length (xs ++ rest)) (length xs) ≡ false =
      ground (arith, length-append xs rest) in
    rw fits (
      ap₂ (λ ys zs. (from_buffer ys, read_bytes (length xs) zs 0)) (drop-append_self xs rest _ refl)
        (take-append_self xs rest _ refl))

pub u8_lem :
    (val : ℕ) (rest : List ℕ)
    → val < 256
    → u8 (from_buffer (digits 1 val ++ rest)) ≡ (from_buffer rest, val)
unfolding u8 read_bytes digits
u8_lem val rest h =
    parse_int_lem (digits 1 val) rest ∙ ap (λ n. (from_buffer rest, n)) (omega (arith, h))

pub u16_lem :
    (val : ℕ) (rest : List ℕ)
    → val < 2 ^ 16
    → u16 (from_buffer (digits 2 val ++ rest)) ≡ (from_buffer rest, val)
unfolding u16 read_bytes digits
u16_lem val rest h =
    parse_int_lem (digits 2 val) rest ∙ ap (λ n. (from_buffer rest, n)) (omega (arith, h))

pub u32_lem :
    (val : ℕ) (rest : List ℕ)
    → val < 2 ^ 32
    → u32 (from_buffer (digits 4 val ++ rest)) ≡ (from_buffer rest, val)
unfolding u32 read_bytes digits
u32_lem val rest h =
    parse_int_lem (digits 4 val) rest ∙ ap (λ n. (from_buffer rest, n)) (omega (arith, h))

-- What the first read of a sequence leaves to the rest.
pub bind_lem {ℓ κ} :
    {A : Type ℓ} {B : Type κ} (m : Parse A) (f : A → Parse B) (p q : NetParser) (a : A)
    → m p ≡ (q, a)
    → (m >>= f) p ≡ f a q
unfolding ◌>>=◌
bind_lem m f p q a e = ap (λ (r : NetParser × _). f r.1 r.0) e

pub unparse_int_lem :
    (n : ℕ) (s : List ℕ) (val : ℕ) (tail : List ℕ)
    → unparse_int n s val ++ tail ≡ s ++ (digits n val ++ tail)
unfolding unparse_int
unparse_int_lem n s val tail =
    ap (λ xs. xs ++ tail) (unparse_loop_lem n s val) ∙ append_assoc s (digits n val) tail
