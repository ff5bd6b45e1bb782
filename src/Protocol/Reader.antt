-- ===== src/Protocol/Reader.antt =====
-- The `reader` of internal/protocol/protocol.go: a cursor with a sticky error, as a state monad.
use rbr_mp_server.Common.{
  ℕ, zero, suc, ◌+◌, ◌*◌, List, [], ◌∷◌, Option, none, some, Bool, true, false, if◌then◌else◌, ltb,
  ◌==◌, length, take, drop, get_or,
}
use rbr_mp_server.Common.Int.{ℤ, to_i32}
use rbr_mp_server.Common.Text.{Text}
use rbr_mp_server.Protocol.Types.{Transform, Telemetry, Error, short, name_len, chat_text_len}

pub record Reader : Type 0 where
  pub b : List ℕ
  pub i : ℕ
  pub err : Option Error

abbrev pub M : Type 0 → Type 0
M A = Reader → A × Reader

infixl 5 ◌>>=◌
unfoldable pub ◌>>=◌ : {A B : Type 0} → M A → (A → M B) → M B
◌>>=◌ m f r = f (m r).0 (m r).1

unfoldable pub return : {A : Type 0} → A → M A
return a r = (a, r)

-- binary.LittleEndian.Uint16 and Uint32, on a slice that is long enough.
unfoldable pub get16 : List ℕ → ℕ
get16 b = get_or b 0 0 + 256 * get_or b 1 0

unfoldable pub get32 : List ℕ → ℕ
get32 b = get_or b 0 0 + 256 * get_or b 1 0 + 65536 * get_or b 2 0 + 16777216 * get_or b 3 0

-- `len(r.b)-r.i < n`, in signed arithmetic: `i` may lie behind the end.
unfoldable pub need : ℕ → M Bool
need n r = elim r.err [
  | some e ↦ (false, r)
  | none ↦ if ltb (length r.b) (r.i + n) then (false, record r { err = some short }) else (true, r)
]

-- The read itself, after `need` has said yes: the `n` bytes at the cursor, which moves on.
unfoldable pub advance : ℕ → M (List ℕ)
advance n r = (take n (drop r.i r.b), record r { i = r.i + n })

-- `if !r.need(n) { return d }; v := get(r.b[r.i:]); r.i += n; return v`
unfoldable pub read : {A : Type 0} → ℕ → A → (List ℕ → A) → M A
unfolding need advance
read n d get r =
    let (fits, r') = need n r in
    let (raw, r'') = advance n r' in if fits then (get raw, r'') else (d, r')

unfoldable pub u16 : M ℕ
u16 = read 2 0 get16

unfoldable pub u32 : M ℕ
u32 = read 4 0 get32

unfoldable pub i32 : M ℤ
i32 = do v ← u32; return (to_i32 v)

unfoldable pub f32 : M ℕ
f32 = u32

-- `for j, c := range raw { if c == 0 { return string(raw[:j]) } }; return string(raw)`
unfoldable pub until_nul : List ℕ → Text
until_nul [] = []
until_nul (c ∷ raw) = if c == 0 then [] else c ∷ until_nul raw

unfoldable pub name : M Text
name = read name_len [] until_nul

unfoldable pub chat_text : M Text
chat_text = read chat_text_len [] until_nul

-- `for j := range a { a[j] = r.f32() }` over an array of the given size.
unfoldable pub floats : ℕ → M (List ℕ)
floats zero = return []
floats (suc n) = do v ← f32; vs ← floats n; return (v ∷ vs)

unfoldable pub transform : M Transform
transform = do
  position ← floats 3
  rot ← floats 9
  return (record { position = position; rot = rot })

unfoldable pub telemetry : M Telemetry
telemetry = do
  vel ← floats 3
  speed ← f32
  rpm ← f32
  steer ← f32
  gear ← i32
  wheel_omega ← floats 4
  return (record {
    vel = vel;
    speed = speed;
    rpm = rpm;
    steer = steer;
    gear = gear;
    wheel_omega = wheel_omega;
  })
