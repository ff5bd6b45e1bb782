-- ===== src/Protocol/Takes.antt =====
-- Short datagrams: each read takes a known number of bytes, and fails exactly when they are missing.
use native.Mathlib.Decide.{dec_le}
use rbr_mp_server.Common.{
  ℕ, zero, suc, ◌+◌, ◌*◌, ◌≤◌, ◌<◌, ◌≡◌, refl, ap, ◌∙◌, List, [], none, some, arith, ltb,
  if◌then◌else◌, length,
}
use rbr_mp_server.Protocol.Types.{Error, short, header_size}
use rbr_mp_server.Protocol.Reader.{
  Reader, M, ◌>>=◌, return, read, u16, u32, i32, f32, name, chat_text, floats, transform, telemetry,
}
use rbr_mp_server.Protocol.Decode.{
  run, start, read_hello, read_welcome, read_state, read_chat, read_ping, read_pong, read_kick,
  decode_hello, decode_welcome, decode_state, decode_chat, decode_ping, decode_pong, decode_kick,
}

-- After the read of `n` bytes: the buffer is the same; with the bytes there the cursor has moved
-- over them; without them the error is `short`; an earlier error stays.
pub record Outcome (r s : Reader) (n : ℕ) : Type 0 where
  pub same : s.b ≡ r.b
  pub fits : r.err ≡ none → r.i + n ≤ length r.b → (s.err ≡ none) × (s.i ≡ r.i + n)
  pub lacks : 1 ≤ n → r.err ≡ none → length r.b < r.i + n → s.err ≡ some short
  pub sticks : (e : Error) → r.err ≡ some e → s.err ≡ some e

pub record Takes {A : Type 0} (m : M A) (n : ℕ) : Type 0 where
  pub on : (r : Reader) → Outcome r (m r).1 n

Takes-return : {A : Type 0} (v : A) → Takes (return v) 0
unfolding return
Takes-return v = record {
  on = λ r. record {
    same = refl;
    fits = λ c h. (c, omega arith);
    lacks = λ p c h. absurd (omega arith);
    sticks = λ e h. h;
  };
}

Takes-read : {A : Type 0} (n : ℕ) (d : A) (get : List ℕ → A) → Takes (read n d get) n
unfolding read
Takes-read n d get = record {
  on = λ r. record {
    same = ground arith;
    fits = λ c h. ground arith;
    lacks = λ p c h. ground arith;
    sticks = λ e h. ground arith;
  };
}

-- Two reads in a row.
Outcome-trans :
    {r s t : Reader} (m n : ℕ) → 1 ≤ m → Outcome r s m → Outcome s t n → Outcome r t (m + n)
Outcome-trans {r} {s} {t} m n pos p q = record {
  same = q.same ∙ p.same;
  fits = λ c h.
      let (c', i') = p.fits c (omega arith) in
      let (c'', i'') = q.fits c' (omega (arith, ap length p.same)) in (c'', omega arith);
  lacks = λ _ c h. elim (dec_le (r.i + m) (length r.b)) [
    | yes fit ↦
        let (c', i') = p.fits c fit in q.lacks (omega arith) c' (omega (arith, ap length p.same))
    | no miss ↦ q.sticks short (p.lacks pos c (omega arith))
  ];
  sticks = λ e h. q.sticks e (p.sticks e h);
}

pub Takes-bind :
    {A B : Type 0} (m : M A) (f : A → M B) (k n : ℕ)
    → 1 ≤ k
    → Takes m k
    → ((a : A) → Takes (f a) n)
    → Takes (m >>= f) (k + n)
unfolding ◌>>=◌
Takes-bind m f k n pos p q = record {
  on = λ r. Outcome-trans {r = r} {s = (m r).1} k n pos (p.on r) ((q (m r).0).on (m r).1);
}

pub Takes-map :
    {A B : Type 0} (m : M A) (f : A → B) (n : ℕ) → Takes m n → Takes (m >>= λ a. return (f a)) n
unfolding ◌>>=◌ return
Takes-map m f n p = record { on = λ r. p.on r }

pub Takes-u16 : Takes u16 2
unfolding u16
Takes-u16 = Takes-read 2 0 _

pub Takes-u32 : Takes u32 4
unfolding u32
Takes-u32 = Takes-read 4 0 _

Takes-f32 : Takes f32 4
unfolding f32
Takes-f32 = Takes-u32

Takes-i32 : Takes i32 4
unfolding i32
Takes-i32 = Takes-map _ _ 4 Takes-u32

pub Takes-name : Takes name 24
unfolding name
Takes-name = Takes-read 24 [] _

Takes-chat_text : Takes chat_text 128
unfolding chat_text
Takes-chat_text = Takes-read 128 [] _

Takes-floats : (n : ℕ) → Takes (floats n) (4 * n)
unfolding floats
Takes-floats zero = Takes-return []
Takes-floats (suc n) =
    let size : 4 + 4 * n ≡ 4 * suc n = omega arith in
    rw (← size) (
      Takes-bind _ _ 4 (4 * n) (omega arith) Takes-f32
        (λ v. Takes-map _ _ (4 * n) (Takes-floats n)))

pub Takes-transform : Takes transform 48
unfolding transform
Takes-transform =
    Takes-bind _ _ 12 36 (omega arith) (Takes-floats 3) λ _. Takes-map _ _ 36 (Takes-floats 9)

pub Takes-telemetry : Takes telemetry 44
unfolding telemetry
Takes-telemetry = Takes-bind _ _ 12 32 (omega arith) (Takes-floats 3) λ _.
    Takes-bind _ _ 4 28 (omega arith) Takes-f32 λ _.
      Takes-bind _ _ 4 24 (omega arith) Takes-f32 λ _.
        Takes-bind _ _ 4 20 (omega arith) Takes-f32
          λ _. Takes-bind _ _ 4 16 (omega arith) Takes-i32 λ _. Takes-map _ _ 16 (Takes-floats 4)

-- The error of a decoder whose reads take `n` bytes behind the header.
run-Takes :
    {A : Type 0} (m : M A) (n : ℕ) (b : List ℕ)
    → 1 ≤ n
    → Takes m n
    → (run m b).1 ≡ (if ltb (length b) (header_size + n) then some short else none)
unfolding run
run-Takes m n b pos t =
    let o : Outcome (start b) (m (start b)).1 n = t.on (start b) in
    elim (dec_le (header_size + n) (length b)) [
      | yes fit ↦ rw (o.fits refl fit).0 (ground arith)
      | no miss ↦ rw (o.lacks pos refl (omega arith)) (ground arith)
    ]

-- The errors of the decoders, by the length of the datagram alone.
pub decode_hello-error :
    (b : List ℕ) → (decode_hello b).1 ≡ (if ltb (length b) 56 then some short else none)
unfolding decode_hello read_hello
decode_hello-error b =
    run-Takes _ 48 b (omega arith)
      (Takes-bind _ _ 24 24 (omega arith) Takes-name λ _. Takes-map _ _ 24 Takes-name)

pub decode_welcome-error :
    (b : List ℕ) → (decode_welcome b).1 ≡ (if ltb (length b) 20 then some short else none)
unfolding decode_welcome read_welcome
decode_welcome-error b = run-Takes _ 12 b (omega arith) (
    Takes-bind _ _ 4 8 (omega arith) Takes-u32 λ _.
      Takes-bind _ _ 2 6 (omega arith) Takes-u16
        λ _. Takes-bind _ _ 2 4 (omega arith) Takes-u16 λ _. Takes-map _ _ 4 Takes-u32)

pub decode_state-error :
    (b : List ℕ) → (decode_state b).1 ≡ (if ltb (length b) 112 then some short else none)
unfolding decode_state read_state
decode_state-error b = run-Takes _ 104 b (omega arith) (
    Takes-bind _ _ 4 100 (omega arith) Takes-u32 λ _.
      Takes-bind _ _ 4 96 (omega arith) Takes-u32 λ _.
        Takes-bind _ _ 4 92 (omega arith) Takes-u32 λ _.
          Takes-bind _ _ 48 44 (omega arith) Takes-transform λ _. Takes-map _ _ 44 Takes-telemetry)

pub decode_chat-error :
    (b : List ℕ) → (decode_chat b).1 ≡ (if ltb (length b) 164 then some short else none)
unfolding decode_chat read_chat
decode_chat-error b = run-Takes _ 156 b (omega arith) (
    Takes-bind _ _ 4 152 (omega arith) Takes-u32
      λ _. Takes-bind _ _ 24 128 (omega arith) Takes-name λ _. Takes-map _ _ 128 Takes-chat_text)

pub decode_ping-error :
    (b : List ℕ) → (decode_ping b).1 ≡ (if ltb (length b) 12 then some short else none)
unfolding decode_ping read_ping
decode_ping-error b = run-Takes _ 4 b (omega arith) (Takes-map _ _ 4 Takes-u32)

pub decode_pong-error :
    (b : List ℕ) → (decode_pong b).1 ≡ (if ltb (length b) 12 then some short else none)
unfolding decode_pong read_pong
decode_pong-error b = run-Takes _ 4 b (omega arith) (Takes-map _ _ 4 Takes-u32)

pub decode_kick-error :
    (b : List ℕ) → (decode_kick b).1 ≡ (if ltb (length b) 72 then some short else none)
unfolding decode_kick read_kick
decode_kick-error b = run-Takes _ 64 b (omega arith) (Takes-map _ _ 64 (Takes-read 64 [] _))

-- Every decoder but that of a Snapshot, whose count says how long it must be, accepts a datagram by
-- its length alone, whatever its bytes: a Hello from 56 bytes on, a Welcome from 20, a State from
-- 112, a Chat from 164, a Ping and a Pong from 12 and a Kick from 72; a shorter one is the error
-- ErrShort.
pub decode_errors :
    (b : List ℕ)
    → ((decode_hello b).1 ≡ (if ltb (length b) 56 then some short else none))
      × ((decode_welcome b).1 ≡ (if ltb (length b) 20 then some short else none))
      × ((decode_state b).1 ≡ (if ltb (length b) 112 then some short else none))
      × ((decode_chat b).1 ≡ (if ltb (length b) 164 then some short else none))
      × ((decode_ping b).1 ≡ (if ltb (length b) 12 then some short else none))
      × ((decode_pong b).1 ≡ (if ltb (length b) 12 then some short else none))
      × ((decode_kick b).1 ≡ (if ltb (length b) 72 then some short else none))
decode_errors b = (
  decode_hello-error b,
  decode_welcome-error b,
  decode_state-error b,
  decode_chat-error b,
  decode_ping-error b,
  decode_pong-error b,
  decode_kick-error b,
)
