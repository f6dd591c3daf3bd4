-- ===== src/Ipv4/Fields.antt =====
-- libsponge/tcp_helpers/ipv4_header.cc: the fields that are written are read back.
use csed.Base.{ℕ, ◌/◌, ◌%◌, ◌^◌, ◌≤◌, ◌<◌, ◌≡◌, ◌∙◌, List, [], ◌++◌, arith, ◌==◌}
use csed.Parser.{from_buffer, u8, u16, u32}
use csed.Parser.Roundtrip.{digits, unparse_int_lem, bind_lem, u8_lem, u16_lem, u32_lem}
use csed.Ipv4.{Ipv4Header, fields, write_fields, first_byte, fo_val}

-- The fields fit their widths.
pub record IsWord (h : Ipv4Header) : Type 0 where
  pub ver : h.ver ≡ 4
  pub hlen_low : 5 ≤ h.hlen
  pub hlen_high : h.hlen < 16
  pub tos : h.tos < 256
  pub len : h.len < 2 ^ 16
  pub id : h.id < 2 ^ 16
  pub offset : h.offset < 2 ^ 13
  pub ttl : h.ttl < 256
  pub proto : h.proto < 256
  pub cksum : h.cksum < 2 ^ 16
  pub src : h.src < 2 ^ 32
  pub dst : h.dst < 2 ^ 32

-- The bytes before the checksum, and those after it.
unfoldable pub front : Ipv4Header → List ℕ → List ℕ
front h rest =
    digits 1 (first_byte h)
    ++ (digits 1 h.tos
        ++ (digits 2 h.len
            ++ (digits 2 h.id
                ++ (digits 2 (fo_val h) ++ (digits 1 h.ttl ++ (digits 1 h.proto ++ rest))))))

unfoldable pub back : Ipv4Header → List ℕ → List ℕ
back h rest = digits 4 h.src ++ (digits 4 h.dst ++ rest)

unfoldable pub wire : Ipv4Header → List ℕ → List ℕ
wire h rest = front h (digits 2 h.cksum ++ back h rest)

pub write_fields-wire : (h : Ipv4Header) (rest : List ℕ) → write_fields h ++ rest ≡ wire h rest
unfolding write_fields wire front back
write_fields-wire h rest =
    unparse_int_lem 4 _ h.dst rest
    ∙ unparse_int_lem 4 _ h.src _
    ∙ unparse_int_lem 2 _ h.cksum _
    ∙ unparse_int_lem 1 _ h.proto _
    ∙ unparse_int_lem 1 _ h.ttl _
    ∙ unparse_int_lem 2 _ (fo_val h) _
    ∙ unparse_int_lem 2 _ h.id _
    ∙ unparse_int_lem 2 _ h.len _
    ∙ unparse_int_lem 1 _ h.tos _
    ∙ unparse_int_lem 1 [] (first_byte h) _

-- What the first byte and the flags hold.
record Packed (h : Ipv4Header) : Type 0 where
  first_small : first_byte h < 256
  fo_small : fo_val h < 2 ^ 16
  ver : first_byte h / 16 ≡ h.ver
  hlen : first_byte h % 16 ≡ h.hlen
  df : (fo_val h / 0x4000 % 2 == 1) ≡ h.df
  mf : (fo_val h / 0x2000 % 2 == 1) ≡ h.mf
  offset : fo_val h % 0x2000 ≡ h.offset

packed_lem : (h : Ipv4Header) → IsWord h → Packed h
unfolding first_byte fo_val
packed_lem h w = record {
  first_small = omega (arith, w.ver, w.hlen_high);
  fo_small = ground (arith, w.offset);
  ver = omega (arith, w.ver, w.hlen_high);
  hlen = omega (arith, w.ver, w.hlen_high);
  df = ground (arith, w.offset);
  mf = ground (arith, w.offset);
  offset = ground (arith, w.offset);
}

pub fields_lem :
    (h : Ipv4Header) (rest : List ℕ)
    → IsWord h
    → fields (from_buffer (wire h rest)) ≡ (from_buffer rest, h)
unfolding fields wire front back
fields_lem h rest w =
    let k = packed_lem h w in
    bind_lem u8 _ _ _ _ (u8_lem (first_byte h) _ k.first_small)
    ∙ bind_lem u8 _ _ _ _ (u8_lem h.tos _ w.tos)
    ∙ bind_lem u16 _ _ _ _ (u16_lem h.len _ w.len)
    ∙ bind_lem u16 _ _ _ _ (u16_lem h.id _ w.id)
    ∙ bind_lem u16 _ _ _ _ (u16_lem (fo_val h) _ k.fo_small)
    ∙ bind_lem u8 _ _ _ _ (u8_lem h.ttl _ w.ttl)
    ∙ bind_lem u8 _ _ _ _ (u8_lem h.proto _ w.proto)
    ∙ bind_lem u16 _ _ _ _ (u16_lem h.cksum _ w.cksum)
    ∙ bind_lem u32 _ _ _ _ (u32_lem h.src _ w.src)
    ∙ bind_lem u32 _ _ _ _ (u32_lem h.dst _ w.dst)
    ∙ (λ i. (
      from_buffer rest,
      record h { ver = k.ver i; hlen = k.hlen i; df = k.df i; mf = k.mf i; offset = k.offset i },
    ))
