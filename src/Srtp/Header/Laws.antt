-- ===== src/Srtp/Header/Laws.antt =====
-- The header of a packet is a function of its first bytes alone.
use minghe.Prelude.{
  ℕ, ◌+◌, ◌*◌, ◌%◌, ◌≤◌, ◌<◌, ◌≡◌, ◌∙◌, ap, true, List, ◌++◌, Option, none, some, arith,
}
use minghe.Prelude.{length, take, length-take, length-append, get_or-take, get_or-append_left}
use minghe.Srtp.Suite.{ok}
use minghe.Srtp.Header.{
  RtpHeader, byte, u16_at, u32_at, parse, total_header_len, csrc_end, version_of, has_extension,
  fields,
}

-- Bytes below the cut are read from the kept part.
byte-prefix :
    (n i : ℕ) (packet rest : List ℕ)
    → n ≤ length packet
    → i < n
    → byte (take n packet ++ rest) i ≡ byte packet i
byte-prefix n i packet rest h lt =
    get_or-append_left (take n packet) rest i 0 (omega (arith, length-take n packet))
    ∙ get_or-take n i packet 0 lt

-- A parsed header is at least 12 bytes long, and its CSRC list and extension word lie inside.
parse_bounds :
    (packet : List ℕ) (h : RtpHeader)
    → parse packet ≡ ok h
    → (csrc_end packet ≤ total_header_len h)
      × (12 ≤ csrc_end packet)
      × (has_extension packet ≡ true → csrc_end packet + 4 ≤ total_header_len h)
unfolding parse total_header_len fields csrc_end
parse_bounds packet h e = ground arith

pub parse-total_ge :
    (packet : List ℕ) (h : RtpHeader) → parse packet ≡ ok h → 12 ≤ total_header_len h
parse-total_ge packet h e = let b = parse_bounds packet h e in omega arith

-- Two packets that agree on the header's bytes have the same header.
module _ (p q : List ℕ) (n : ℕ) (agree : (i : ℕ) → i < n → byte q i ≡ byte p i)
    (fits : n ≤ length q) where
  csrc_end_agree : 12 ≤ n → csrc_end q ≡ csrc_end p
  unfolding csrc_end
  csrc_end_agree h = ap (λ (b : ℕ). 12 + b % 16 * 4) (agree 0 (omega arith))

  has_extension_agree : 12 ≤ n → has_extension q ≡ has_extension p
  unfolding has_extension
  has_extension_agree h = rw (agree 0 (omega arith))

  version_agree : 12 ≤ n → version_of q ≡ version_of p
  unfolding version_of
  version_agree h = rw (agree 0 (omega arith))

  u16_agree : (i : ℕ) → i + 1 < n → u16_at q i ≡ u16_at p i
  u16_agree i h = omega (arith, agree i (omega arith), agree (i + 1) (omega arith))

  u32_agree : (i : ℕ) → i + 3 < n → u32_at q i ≡ u32_at p i
  u32_agree i h = omega (arith, u16_agree i (omega arith), u16_agree (i + 2) (omega arith))

  fields_agree : (ext : Option ℕ) → 12 ≤ n → fields q ext ≡ fields p ext
  unfolding fields
  fields_agree ext h = rw (
    version_agree h,
    has_extension_agree h,
    agree 0 (omega arith),
    u16_agree 2 (omega arith),
    u32_agree 4 (omega arith),
    u32_agree 8 (omega arith),
  )

  parse_agree : (h : RtpHeader) → parse p ≡ ok h → total_header_len h ≤ n → parse q ≡ ok h
  unfolding parse
  parse_agree h e le =
      let b = parse_bounds p h e in
      let big : 12 ≤ n = omega arith in
      rw (version_agree big, has_extension_agree big, csrc_end_agree big)
        (ground (
          arith,
          b.2,
          fields_agree none big,
          u16_agree (csrc_end p + 2),
          fields_agree (some (u16_at p (csrc_end p + 2))) big,
        ))

-- A packet with a header that fits, cut off after its header, with anything behind, has the same
-- header.
pub parse-prefix :
    (packet rest : List ℕ) (h : RtpHeader)
    → parse packet ≡ ok h
    → total_header_len h ≤ length packet
    → parse (take (total_header_len h) packet ++ rest) ≡ ok h
parse-prefix packet rest h e fits =
    let n = total_header_len h in
    parse_agree packet (take n packet ++ rest) n (λ i lt. byte-prefix n i packet rest fits lt)
      (omega (arith, length-append (take n packet) rest, length-take n packet)) h e (omega arith)
