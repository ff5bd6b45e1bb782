-- ===== src/Protocol/FixedText.antt =====
-- The NUL-padded text fields of internal/protocol/protocol.go, seen from both ends of the wire.
use rbr_mp_server.Common.{
  ℕ, zero, suc, ◌-◌, ◌≤◌, ◌<◌, ◌≡◌, refl, ◌≢◌, [], ◌∷◌, ◌++◌, arith, length, take, replicate, All,
  length-append, length-take, length-replicate, length-set,
}
use rbr_mp_server.Common.Text.{Text}
use rbr_mp_server.Protocol.Types.{name_len, chat_text_len, kick_reason_len}
use rbr_mp_server.Protocol.Writer.{text_buf}
use rbr_mp_server.Protocol.Reader.{read, name, chat_text, until_nul}
use rbr_mp_server.Protocol.Reads.{Reads, Reads-read}

-- What of a string survives a field of `n` bytes: at most `n - 1` bytes, up to the first NUL.
abbrev pub wire_text : ℕ → Text → Text
wire_text n s = until_nul (take (n - 1) s)

pub length-text_buf : (n : ℕ) (s : Text) → length (text_buf n s) ≡ n
unfolding text_buf
length-text_buf n s = ground (
  arith,
  length-set (take n s ++ replicate (n - length s) 0) (n - 1) 0,
  length-append (take n s) (replicate (n - length s) 0),
  length-take n s,
  length-replicate {A = ℕ} (n - length s) 0,
)

text_buf-cons : (n x : ℕ) (s : Text) → text_buf (suc (suc n)) (x ∷ s) ≡ x ∷ text_buf (suc n) s
unfolding text_buf
text_buf-cons n x s =
    let pad : suc (suc n) - suc (length s) ≡ suc n - length s = omega arith in
    let last : suc (suc n) - 1 ≡ suc (suc n - 1) = omega arith in rw (pad, last) (ground arith)

-- A string written to a field of n bytes, n not 0, is read back as `wire_text n` of it: its first
-- n - 1 bytes, up to the first NUL among them.
pub until_nul-text_buf : (n : ℕ) (s : Text) → 1 ≤ n → until_nul (text_buf n s) ≡ wire_text n s
unfolding until_nul
until_nul-text_buf zero s h = absurd (omega arith)
until_nul-text_buf (suc zero) [] h = unfold text_buf in refl
until_nul-text_buf (suc zero) (x ∷ s) h = unfold text_buf in ground arith
until_nul-text_buf (suc (suc n)) [] h =
    let room : suc (suc n) - 1 ≡ suc n = omega arith in
    let pad : suc (suc n) - 0 ≡ suc (suc n) = omega arith in
    rw room (unfold text_buf in rw pad (ground arith))
until_nul-text_buf (suc (suc n)) (x ∷ s) h =
    let more : suc (suc n) - 1 ≡ suc (suc n - 1) = omega arith in
    rw (text_buf-cons n x s, more) (ground (arith, until_nul-text_buf (suc n) s (omega arith)))

pub until_nul-take_short :
    (n : ℕ) (s : Text) → length s ≤ n → All (λ c. c ≢ 0) s → until_nul (take n s) ≡ s
unfolding until_nul
until_nul-take_short zero [] h p = refl
until_nul-take_short zero (x ∷ s) h p = absurd (omega arith)
until_nul-take_short (suc n) [] h p = refl
until_nul-take_short (suc n) (x ∷ s) h p =
    ground (arith, p.0, until_nul-take_short n s (omega arith) p.1)

-- A string without NUL that is shorter than the field survives whole.
pub wire_text_short : (n : ℕ) (s : Text) → length s < n → All (λ c. c ≢ 0) s → wire_text n s ≡ s
wire_text_short n s h p = until_nul-take_short (n - 1) s (omega arith) p

Reads-text : (n : ℕ) (s : Text) → 1 ≤ n → Reads (read n [] until_nul) (text_buf n s) (wire_text n s)
Reads-text n s h =
    rw (← until_nul-text_buf n s h)
      (Reads-read n [] until_nul (text_buf n s) (length-text_buf n s) h)

pub Reads-name : (s : Text) → Reads name (text_buf name_len s) (wire_text name_len s)
unfolding name
Reads-name s = Reads-text name_len s (omega arith)

pub Reads-chat_text :
    (s : Text) → Reads chat_text (text_buf chat_text_len s) (wire_text chat_text_len s)
unfolding chat_text
Reads-chat_text s = Reads-text chat_text_len s (omega arith)

pub Reads-kick_reason :
    (s : Text)
    → Reads
        (read kick_reason_len [] until_nul)
        (text_buf kick_reason_len s)
        (wire_text kick_reason_len s)
Reads-kick_reason s = Reads-text kick_reason_len s (omega arith)

take-until_nul :
    (n : ℕ) (s : Text) → until_nul (take n (until_nul (take n s))) ≡ until_nul (take n s)
unfolding until_nul
take-until_nul zero s = refl
take-until_nul (suc n) [] = refl
take-until_nul (suc n) (x ∷ s) = ground (arith, take-until_nul n s)

-- A text that has been through a field of the wire goes through a second one unchanged.
pub wire_text-wire_text : (n : ℕ) (s : Text) → wire_text n (wire_text n s) ≡ wire_text n s
wire_text-wire_text n s = take-until_nul (n - 1) s
