-- ===== src/Protocol/Writer.antt =====
-- The `writer` of internal/protocol/protocol.go: each method appends to the bytes written so far.
use rbr_mp_server.Common.{
  ℕ, ◌-◌, ◌/◌, ◌%◌, List, [], ◌∷◌, ◌++◌, if◌then◌else◌, leb, length, set, take, replicate,
}
use rbr_mp_server.Common.Int.{ℤ, to_u32}
use rbr_mp_server.Common.Text.{Text}
use rbr_mp_server.Protocol.Types.{
  Transform, Telemetry, magic, version, name_len, chat_text_len, kick_reason_len,
}

-- The bytes of binary.LittleEndian.AppendUint16 and AppendUint32.
unfoldable pub le16 : ℕ → List ℕ
le16 v = (v % 256) ∷ (v / 256 % 256) ∷ []

unfoldable pub le32 : ℕ → List ℕ
le32 v = (v % 256) ∷ (v / 256 % 256) ∷ (v / 65536 % 256) ∷ (v / 16777216 % 256) ∷ []

unfoldable pub u16 : List ℕ → ℕ → List ℕ
u16 w v = w ++ le16 v

unfoldable pub u32 : List ℕ → ℕ → List ℕ
u32 w v = w ++ le32 v

unfoldable pub i32 : List ℕ → ℤ → List ℕ
i32 w v = u32 w (to_u32 v)

unfoldable pub f32 : List ℕ → ℕ → List ℕ
f32 w v = w ++ le32 v

-- `var buf [n]byte; copy(buf[:], s); if len(s) >= n { buf[n-1] = 0 }`
unfoldable pub text_buf : ℕ → Text → List ℕ
text_buf n s =
    let buf = take n s ++ replicate (n - length s) 0 in
    if leb n (length s) then set buf (n - 1) 0 else buf

unfoldable pub name : List ℕ → Text → List ℕ
name w s = w ++ text_buf name_len s

unfoldable pub chat_text : List ℕ → Text → List ℕ
chat_text w s = w ++ text_buf chat_text_len s

unfoldable pub kick_reason : List ℕ → Text → List ℕ
kick_reason w s = w ++ text_buf kick_reason_len s

-- `for _, v := range vs { w.f32(v) }`
unfoldable pub floats : List ℕ → List ℕ → List ℕ
floats w [] = w
floats w (v ∷ vs) = floats (f32 w v) vs

unfoldable pub transform : List ℕ → Transform → List ℕ
transform w t = floats (floats w t.position) t.rot

unfoldable pub telemetry : List ℕ → Telemetry → List ℕ
telemetry w t =
    let w = floats w t.vel in
    let w = f32 w t.speed in
    let w = f32 w t.rpm in let w = f32 w t.steer in let w = i32 w t.gear in floats w t.wheel_omega

unfoldable pub header : List ℕ → ℕ → List ℕ
header w t = u16 (u16 (u32 w magic) version) t
