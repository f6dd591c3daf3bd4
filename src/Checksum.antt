-- ===== src/Checksum.antt =====
-- `InternetChecksum` of libsponge/util/util.hh and .cc.
pub mod Laws
mod Examples
use csed.Base.{
  ℕ, zero, suc, ◌+◌, ◌-◌, ◌*◌, ◌/◌, ◌%◌, Bool, true, false, not, List, [], ◌∷◌, ltb, if◌then◌else◌,
  u16_mod, u32_mod,
}

pub record InternetChecksum : Type 0 where
  pub sum : ℕ
  pub parity : Bool

unfoldable pub new : ℕ → InternetChecksum
new initial_sum = record { sum = initial_sum; parity = false }

-- A round of the loop of `add`.
unfoldable pub add_byte : InternetChecksum → ℕ → InternetChecksum
add_byte c b = record {
  sum = (c.sum + (if c.parity then b % 256 else b % 256 * 256 % u16_mod)) % u32_mod;
  parity = not c.parity;
}

unfoldable pub add : InternetChecksum → List ℕ → InternetChecksum
unfolding add_byte
add c [] = c
add c (b ∷ bs) = add (add_byte c b) bs

-- `while (ret > 0xffff) ret = (ret >> 16) + (ret & 0xffff)`, on fuel.
unfoldable pub fold : ℕ → ℕ → ℕ
fold zero ret = ret
fold (suc fuel) ret =
    let rest = fold fuel (ret / u16_mod + ret % u16_mod) in if ltb 0xffff ret then rest else ret

-- Two rounds are enough for a number of 32 bits. `return ~ret` keeps 16 bits.
unfoldable pub value : InternetChecksum → ℕ
unfolding fold
value c = (u32_mod - 1 - fold 2 c.sum) % u16_mod
