-- ===== src/Parser.antt =====
-- libsponge/util/parser.hh and .cc: integers in network byte order, read from and written to bytes.
-- The width of the integer type is the argument `len`, its size in bytes.
pub mod Roundtrip
use csed.Base.{
  ℕ, zero, suc, ◌+◌, ◌*◌, ◌/◌, ◌%◌, ◌^◌, Bool, true, false, not, List, [], ◌∷◌, ◌++◌, ltb,
  if◌then◌else◌, length, take, drop, replicate, ◌-◌, Option, none, some,
}

pub data ParseResult : Type 0 where
  no_error : ParseResult
  bad_checksum : ParseResult
  packet_too_short : ParseResult
  wrong_ip_version : ParseResult
  header_too_short : ParseResult
  truncated_packet : ParseResult
  unsupported : ParseResult

pub record NetParser : Type 0 where
  pub buffer : List ℕ
  pub error : ParseResult

-- `NetParser p{buffer}`.
abbrev pub from_buffer : List ℕ → NetParser
from_buffer buffer = record { buffer = buffer; error = no_error }

unfoldable pub is_error : ParseResult → Bool
is_error no_error = false
is_error bad_checksum = true
is_error packet_too_short = true
is_error wrong_ip_version = true
is_error header_too_short = true
is_error truncated_packet = true
is_error unsupported = true

unfoldable pub set_error : NetParser → ParseResult → NetParser
set_error p e = record p { error = e }

unfoldable pub check_size : NetParser → ℕ → NetParser
unfolding set_error
check_size p size = if ltb (length p.buffer) size then set_error p packet_too_short else p

-- The loop over the bytes: `ret <<= 8; ret += byte`, in a type of `len` bytes.
unfoldable pub read_bytes : ℕ → List ℕ → ℕ → ℕ
read_bytes len [] ret = ret
read_bytes len (b ∷ bs) ret = read_bytes len bs ((ret * 256 + b % 256) % 256 ^ len)

unfoldable pub parse_int : ℕ → NetParser → NetParser × ℕ
unfolding check_size is_error read_bytes
parse_int len p =
    let p' = check_size p len in
    if is_error p'.error
    then (p', 0)
    else (record p' { buffer = drop len p'.buffer }, read_bytes len (take len p'.buffer) 0)

unfoldable pub u32 : NetParser → NetParser × ℕ
unfolding parse_int
u32 p = parse_int 4 p

unfoldable pub u16 : NetParser → NetParser × ℕ
unfolding parse_int
u16 p = parse_int 2 p

unfoldable pub u8 : NetParser → NetParser × ℕ
unfolding parse_int
u8 p = parse_int 1 p

unfoldable pub remove_prefix : NetParser → ℕ → NetParser
unfolding check_size is_error
remove_prefix p n =
    let p' = check_size p n in
    if is_error p'.error then p' else record p' { buffer = drop n p'.buffer }

-- The loop of `_unparse_int`, on the rounds left: `(val >> ((len - i - 1) * 8)) & 0xff`.
unfoldable pub unparse_loop : ℕ → List ℕ → ℕ → List ℕ
unparse_loop zero s val = s
unparse_loop (suc n) s val = unparse_loop n (s ++ (val / 256 ^ n % 256 ∷ [])) val

unfoldable pub unparse_int : ℕ → List ℕ → ℕ → List ℕ
unfolding unparse_loop
unparse_int len s val = unparse_loop len s val

-- A sequence of reads, each from where the one before it ended.
abbrev pub Parse {ℓ} : Type ℓ → Type ℓ
Parse A = NetParser → NetParser × A

infixl 5 ◌>>=◌
unfoldable pub ◌>>=◌ {ℓ κ} : {A : Type ℓ} {B : Type κ} → Parse A → (A → Parse B) → Parse B
(m >>= f) p = let (q, a) = m p in f a q

abbrev pub yields {ℓ} : {A : Type ℓ} → A → Parse A
yields a p = (p, a)

-- `ret.resize(n)`.
unfoldable pub resize : List ℕ → ℕ → List ℕ
resize ret n = take n ret ++ replicate (n - length ret) 0

-- `ret.append` of a payload, where the header before it was written.
unfoldable pub append_to : Option (List ℕ) → List (List ℕ) → Option (List (List ℕ))
append_to none payload = none
append_to (some bytes) payload = some (bytes ∷ payload)
