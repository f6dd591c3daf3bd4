-- ===== src/Ethernet/Laws.antt =====
-- libsponge/tcp_helpers/ethernet_header.cc and ethernet_frame.cc: frames that are written are read
-- back, and frames that are too short are not refused.
use csed.Base.{
  ℕ, ◌+◌, ◌<◌, ◌^◌, ◌≡◌, refl, sym, ap, ◌∙◌, false, List, [], ◌∷◌, ◌++◌, append_assoc, append-nil,
  arith, length, length-append, ltb, lt→ltb,
}
use csed.Buffer.Views.{flat}
use csed.Parser.{ParseResult, no_error, NetParser, from_buffer, u8, u16, unparse_int}
use csed.Parser.Roundtrip.{digits, unparse_loop_lem, u8_lem, u16_lem}
use csed.Ethernet.{
  EthernetAddress, EthernetHeader, EthernetFrame, header_length, read_address, write_address, parse,
  serialize, parse_frame, serialize_frame,
}

-- All are bytes.
abbrev pub AllByte : List ℕ → Type 0
AllByte [] = Unit {0}
AllByte (b ∷ bs) = (b < 256) × AllByte bs

pub record IsWord (h : EthernetHeader) : Type 0 where
  pub dst_length : length h.dst ≡ 6
  pub src_length : length h.src ≡ 6
  pub dst_bytes : AllByte h.dst
  pub src_bytes : AllByte h.src
  pub type_word : h.type < 2 ^ 16

digit : (b : ℕ) → b < 256 → digits 1 b ≡ b ∷ []
unfolding digits
digit b h = ap (λ x. x ∷ []) (omega (arith, h))

pub write_address_lem :
    (ret : List ℕ) (bs : EthernetAddress) → AllByte bs → write_address ret bs ≡ ret ++ bs
unfolding write_address unparse_int
write_address_lem ret [] h = sym (append-nil ret)
write_address_lem ret (b ∷ bs) h =
    write_address_lem (unparse_int 1 ret b) bs h.1
    ∙ ap (λ xs. xs ++ bs) (unparse_loop_lem 1 ret b ∙ ap (λ xs. ret ++ xs) (digit b h.0))
    ∙ append_assoc ret (b ∷ []) bs

read_address_lem :
    (bs : EthernetAddress) (rest : List ℕ)
    → AllByte bs
    → read_address (length bs) (from_buffer (bs ++ rest)) ≡ (from_buffer rest, bs)
unfolding read_address
read_address_lem [] rest h = refl
read_address_lem (b ∷ bs) rest h =
    let e : u8 (from_buffer (b ∷ (bs ++ rest))) ≡ (from_buffer (bs ++ rest), b) =
      ap (λ xs. u8 (from_buffer (xs ++ (bs ++ rest)))) (sym (digit b h.0))
      ∙ u8_lem b (bs ++ rest) h.0 in
    ap (λ (r : NetParser × ℕ). let (q, cs) = read_address (length bs) r.0 in (q, r.1 ∷ cs)) e
    ∙ ap (λ (r : NetParser × List ℕ). (r.0, b ∷ r.1)) (read_address_lem bs rest h.1)

serialize_lem : (h : EthernetHeader) → IsWord h → serialize h ≡ h.dst ++ (h.src ++ digits 2 h.type)
unfolding serialize unparse_int
serialize_lem h w =
    unparse_loop_lem 2 _ h.type
    ∙ ap (λ xs. xs ++ digits 2 h.type)
        (write_address_lem _ h.src w.src_bytes
          ∙ ap (λ xs. xs ++ h.src) (write_address_lem [] h.dst w.dst_bytes))
    ∙ append_assoc h.dst h.src (digits 2 h.type)

pub read_whole :
    (bs : EthernetAddress) (rest : List ℕ)
    → AllByte bs
    → length bs ≡ 6
    → read_address 6 (from_buffer (bs ++ rest)) ≡ (from_buffer rest, bs)
read_whole bs rest h e =
    ap (λ n. read_address n (from_buffer (bs ++ rest))) (sym e) ∙ read_address_lem bs rest h

parse_lem :
    (before h : EthernetHeader) (payload : List ℕ)
    → IsWord h
    → parse before (from_buffer (h.dst ++ (h.src ++ (digits 2 h.type ++ payload))))
      ≡ (no_error, h, from_buffer payload)
unfolding parse
parse_lem before h payload w =
    let typed = digits 2 h.type ++ payload in
    let bytes = h.dst ++ (h.src ++ typed) in
    let size : length bytes ≡ 6 + (6 + (2 + length payload)) =
      unfold digits in
      omega (
        arith,
        length-append h.dst (h.src ++ typed),
        length-append h.src typed,
        w.dst_length,
        w.src_length,
      ) in
    let long : ltb (length bytes) header_length ≡ false = ground (arith, size) in
    rw long (
      ap (λ (r : NetParser × List ℕ). with_src r.1 (read_address 6 r.0))
        (read_whole h.dst (h.src ++ typed) w.dst_bytes w.dst_length)
      ∙ ap (with_src h.dst) (read_whole h.src typed w.src_bytes w.src_length)
      ∙ ap (with_type h.dst h.src) (u16_lem h.type payload w.type_word))
  where
    with_type :
        EthernetAddress → EthernetAddress → NetParser × ℕ → ParseResult × EthernetHeader × NetParser
    with_type dst src r = (r.0.error, record { dst = dst; src = src; type = r.1 }, r.0)

    with_src :
        EthernetAddress → NetParser × EthernetAddress → ParseResult × EthernetHeader × NetParser
    with_src dst r = with_type dst r.1 (u16 r.0)

-- Parsing the bytes that `serialize` wrote of a frame with byte addresses of six bytes and a 16-bit type
-- gives back the frame, its payload in one buffer, without an error, whatever the frame object held
-- before.
pub parse_frame-serialize_frame :
    (f before : EthernetFrame)
    → IsWord f.header
    → parse_frame before (flat (serialize_frame f))
      ≡ (no_error, record f { payload = flat f.payload ∷ [] })
unfolding parse_frame serialize_frame
parse_frame-serialize_frame f before w =
    let h = f.header in
    let payload = flat f.payload in
    let e : serialize h ++ payload ≡ h.dst ++ (h.src ++ (digits 2 h.type ++ payload)) =
      ap (λ xs. xs ++ payload) (serialize_lem h w)
      ∙ append_assoc h.dst (h.src ++ digits 2 h.type) payload
      ∙ ap (λ xs. h.dst ++ xs) (append_assoc h.src (digits 2 h.type) payload) in
    ap (λ xs. parse_frame before xs) e
    ∙ ap
        (λ (r : ParseResult × EthernetHeader × NetParser).
          (r.2.error, record { header = r.1; payload = r.2.buffer ∷ [] }))
        (parse_lem before.header h payload w)

-- A frame of fewer than 14 bytes is reported as parsed without an error: the header is left as it was,
-- and the bytes are taken for the payload.
pub parse_frame_short :
    (before : EthernetFrame) (buffer : List ℕ)
    → length buffer < header_length
    → parse_frame before buffer ≡ (no_error, record before { payload = buffer ∷ [] })
unfolding parse_frame parse
parse_frame_short before buffer h = rw (lt→ltb (length buffer) header_length h) refl
