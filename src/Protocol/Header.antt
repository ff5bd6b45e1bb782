-- ===== src/Protocol/Header.antt =====
-- ParseHeader of internal/protocol/protocol.go against the header that every encoder writes.
use rbr_mp_server.Common.{
  ℕ, ◌+◌, ◌*◌, ◌/◌, ◌%◌, ◌≤◌, ◌<◌, ◌≡◌, ◌↔◌, List, [], ◌∷◌, ◌++◌, arith, length, drop, All,
}
use rbr_mp_server.Protocol.Types.{IsU16, magic, version, header_size}
use rbr_mp_server.Protocol.Writer.{header, u16, u32, le16, le32}
use rbr_mp_server.Protocol.Reader.{get16, get32}
use rbr_mp_server.Protocol.Decode.{ok, parse_header}

abbrev pub IsByte : ℕ → Type 0
IsByte c = c < 256

-- A header that an encoder wrote is accepted, with its message type.
pub parse_header-header :
    (t : ℕ) (rest : List ℕ) → IsU16 t → parse_header (header [] t ++ rest) ≡ ok t
unfolding parse_header header u16 u32 le16 le32 get16 get32
parse_header-header t rest h =
    let value : t % 256 + 256 * (t / 256 % 256) ≡ t = omega arith in ground (arith, value)

fields :
    (b : List ℕ) (t : ℕ)
    → parse_header b ≡ ok t
    → (header_size ≤ length b)
      × (get32 b ≡ magic)
      × (get16 (drop 4 b) ≡ version)
      × (get16 (drop 6 b) ≡ t)
unfolding parse_header
fields b t p = ground arith

-- The eight bytes of an accepted datagram are those that `header` writes.
accepted :
    (a b c d e f g h t : ℕ) (rest : List ℕ)
    → All IsByte (a ∷ b ∷ c ∷ d ∷ e ∷ f ∷ g ∷ h ∷ rest)
    → parse_header (a ∷ b ∷ c ∷ d ∷ e ∷ f ∷ g ∷ h ∷ rest) ≡ ok t
    → IsU16 t × (a ∷ b ∷ c ∷ d ∷ e ∷ f ∷ g ∷ h ∷ rest ≡ header [] t ++ rest)
unfolding header u16 u32 le16 le32 get16 get32
accepted a b c d e f g h t rest (ba, (bb, (bc, (bd, (be, (bf, (bg, (bh, _)))))))) p =
    let (_, m, v, y) = fields (a ∷ b ∷ c ∷ d ∷ e ∷ f ∷ g ∷ h ∷ rest) t p in
    let ea : a ≡ 79 = omega arith in
    let eb : b ≡ 82 = omega arith in
    let ec : c ≡ 77 = omega arith in
    let ed : d ≡ 80 = omega arith in
    let ee : e ≡ 3 = omega arith in
    let ef : f ≡ 0 = omega arith in
    let eg : g ≡ t % 256 = omega arith in
    let eh : h ≡ t / 256 % 256 = omega arith in
    (omega arith, λ i. ea i ∷ eb i ∷ ec i ∷ ed i ∷ ee i ∷ ef i ∷ eg i ∷ eh i ∷ rest)

accepted_bytes :
    (b : List ℕ) (t : ℕ)
    → All IsByte b
    → header_size ≤ length b
    → parse_header b ≡ ok t
    → IsU16 t × (b ≡ header [] t ++ drop 8 b)
accepted_bytes [] t _ n = absurd (omega arith)
accepted_bytes (_ ∷ []) t _ n = absurd (omega arith)
accepted_bytes (_ ∷ _ ∷ []) t _ n = absurd (omega arith)
accepted_bytes (_ ∷ _ ∷ _ ∷ []) t _ n = absurd (omega arith)
accepted_bytes (_ ∷ _ ∷ _ ∷ _ ∷ []) t _ n = absurd (omega arith)
accepted_bytes (_ ∷ _ ∷ _ ∷ _ ∷ _ ∷ []) t _ n = absurd (omega arith)
accepted_bytes (_ ∷ _ ∷ _ ∷ _ ∷ _ ∷ _ ∷ []) t _ n = absurd (omega arith)
accepted_bytes (_ ∷ _ ∷ _ ∷ _ ∷ _ ∷ _ ∷ _ ∷ []) t _ n = absurd (omega arith)
accepted_bytes (a ∷ b ∷ c ∷ d ∷ e ∷ f ∷ g ∷ h ∷ rest) t bytes n =
    accepted a b c d e f g h t rest bytes

-- A list of bytes is accepted with the message type `t` exactly when `t` is a 16-bit number and
-- the list begins with the eight bytes that `header` writes for it.
pub parse_header-ok_iff :
    (b : List ℕ) (t : ℕ)
    → All IsByte b
    → (parse_header b ≡ ok t) ↔ (IsU16 t × (b ≡ header [] t ++ drop 8 b))
parse_header-ok_iff b t bytes = (
  λ p. accepted_bytes b t bytes (fields b t p).0 p,
  λ q. rw q.1 (parse_header-header t (drop 8 b) q.0),
)
