-- ===== src/Console/Fuel.antt =====
-- The loops over the lines of a connection in internal/server/rcon.go and cmd/clirbrmp/main.go end: the
-- fuel of their models is enough.
use rbr_mp_server.Common.{
  ℕ, zero, suc, ◌+◌, ◌<◌, ◌≡◌, refl, ap, ◌≢◌, ◌⊎◌, inl, inr, List, [], ◌∷◌, ◌++◌, some, length, All,
  arith, Option-cases, append_assoc,
}
use rbr_mp_server.Common.Text.{Text}
use rbr_mp_server.Console.Scanner.{
  Scanned, token, ended, too_long, cut_line, drop_cr, fitting, scan, read_lines,
}
use rbr_mp_server.Console.Response.{
  Verdict, accepted, refused, last_ok, last_err, payload, client_limit, classify, response,
}
use rbr_mp_server.Console.Framing.{scan_line}

cut_line-shorter : (t line rest : Text) → cut_line t ≡ some (line, rest) → length rest < length t
unfolding cut_line
cut_line-shorter [] line rest e = absurd (ground arith)
cut_line-shorter (c ∷ cs) line rest e = elim (Option-cases (cut_line cs)) [
  | inl none_left ↦ ground arith
  | inr ((l, r), more) ↦ let shorter = cut_line-shorter cs l r more in ground arith
]

-- A token takes at least one byte.
scan-shorter :
    (limit : ℕ) (t line rest : Text) → scan limit t ≡ token line rest → length rest < length t
unfolding scan fitting
scan-shorter limit [] line rest e = absurd (ground arith)
scan-shorter limit (c ∷ cs) line rest e = elim (Option-cases (cut_line (c ∷ cs))) [
  | inl last_line ↦ ground arith
  | inr ((l, r), found) ↦ let shorter = cut_line-shorter (c ∷ cs) l r found in ground arith
]

Scanned-cases :
    (s : Scanned)
    → (s ≡ ended) ⊎ (s ≡ too_long) ⊎ ((line : Text) × (rest : Text) × (s ≡ token line rest))
Scanned-cases ended = inl refl
Scanned-cases too_long = inr (inl refl)
Scanned-cases (token line rest) = inr (inr (line, rest, refl))

-- What `response` makes of a line and of what it finds behind it.
abbrev after_line : Text → Text → List Text × Verdict × Text → List Text × Verdict × Text
after_line line rest (out, verdict, left) = elim (classify line) [
  | last_ok ↦ ([], accepted, rest)
  | last_err e ↦ ([], refused e, rest)
  | payload p ↦ (p ∷ out, verdict, left)
]

response_enough :
    (fuel extra : ℕ) (stream : Text)
    → length stream < fuel
    → response (fuel + extra) stream ≡ response fuel stream
unfolding response
response_enough zero extra stream h = absurd (omega arith)
response_enough (suc fuel) extra stream h =
    let one_more : suc fuel + extra ≡ suc (fuel + extra) = omega arith in
    rw one_more (elim (Scanned-cases (scan client_limit stream)) [
      | inl e ↦ rw (e, response) refl
      | inr (inl e) ↦ rw (e, response) refl
      | inr (inr (line, rest, e)) ↦
          let shorter = scan-shorter client_limit stream line rest e in
          let ih : response (fuel + extra) rest ≡ response fuel rest =
            response_enough fuel extra rest (omega arith) in
          rw (e, response) (ap (after_line line rest) ih)
    ])

read_lines_enough :
    (limit fuel extra : ℕ) (stream : Text)
    → length stream < fuel
    → read_lines limit (fuel + extra) stream ≡ read_lines limit fuel stream
unfolding read_lines
read_lines_enough limit zero extra stream h = absurd (omega arith)
read_lines_enough limit (suc fuel) extra stream h =
    let one_more : suc fuel + extra ≡ suc (fuel + extra) = omega arith in
    rw one_more (elim (Scanned-cases (scan limit stream)) [
      | inl e ↦ rw (e, read_lines) refl
      | inr (inl e) ↦ rw (e, read_lines) refl
      | inr (inr (line, rest, e)) ↦
          let shorter = scan-shorter limit stream line rest e in
          let ih : read_lines limit (fuel + extra) rest ≡ read_lines limit fuel rest =
            read_lines_enough limit fuel extra rest (omega arith) in
          rw (e, ih, read_lines) refl
    ])

-- The loops over the lines of a connection end: `response` and the server's reading of lines find
-- the same with any fuel that is more than the number of bytes in the stream, so that the fuel never
-- cuts a stream short, whatever bytes are in it.
pub fuel_enough :
    (limit fuel extra : ℕ) (stream : Text)
    → length stream < fuel
    → (response (fuel + extra) stream ≡ response fuel stream)
      × (read_lines limit (fuel + extra) stream ≡ read_lines limit fuel stream)
fuel_enough limit fuel extra stream h =
    (response_enough fuel extra stream h, read_lines_enough limit fuel extra stream h)

-- A line that the server's scanner takes whole.
pub record IsWhole (limit : ℕ) (t : Text) : Type 0 where
  pub inner : All (λ c. c ≢ b'\n') t
  pub final : drop_cr t ≡ t
  pub short : length t < limit

pub read_lines_next :
    (limit fuel : ℕ) (t rest : Text)
    → IsWhole limit t
    → read_lines limit (suc fuel) ((t ++ (b'\n' ∷ [])) ++ rest) ≡ t ∷ read_lines limit fuel rest
unfolding read_lines
read_lines_next limit fuel t rest w =
    let next = scan_line limit t rest w.inner w.final w.short in
    rw (append_assoc t (b'\n' ∷ []) rest, next, read_lines) refl
