-- ===== src/Console/Framing.antt =====
-- The framing of the responses of internal/server/rcon.go: where cmd/clirbrmp/main.go sees them end.
use mathlib.Core.List.{append_assoc}
use rbr_mp_server.Common.{
  ℕ, zero, suc, ◌+◌, ◌≤◌, ◌<◌, ◌≡◌, refl, sym, ap, ◌∙◌, ◌≢◌, List, [], ◌∷◌, ◌++◌, Option, none,
  some, length, All, arith, All-append, length-append,
}
use rbr_mp_server.Common.Text.{Text, text_eq}
use rbr_mp_server.Console.Scanner.{token, cut_line, drop_cr, fitting, scan}
use rbr_mp_server.Console.Response.{
  ok_line, err_prefix, payload_line, terminator, write_response, cut_prefix, strip_bar, Verdict,
  accepted, refused, client_limit, last_ok, last_err, payload, classify, response,
}

-- One line without a newline, which does not end in a carriage return and fits the client's buffer
-- with the four bytes of the longest prefix.
pub record IsLine (t : Text) : Type 0 where
  pub inner : All (λ c. c ≢ b'\n') t
  pub final : drop_cr t ≡ t
  pub short : length t + 4 < client_limit

abbrev pub verdict_of : Option Text → Verdict
verdict_of none = accepted
verdict_of (some e) = refused e

abbrev pub IsError : Option Text → Type 0
IsError none = Unit
IsError (some e) = IsLine e

pub cut_line-append :
    (t rest : Text) → All (λ c. c ≢ b'\n') t → cut_line (t ++ (b'\n' ∷ rest)) ≡ some (t, rest)
unfolding cut_line
cut_line-append [] rest h = refl
cut_line-append (c ∷ cs) rest h = ground (arith, cut_line-append cs rest h.1)

pub scan_cut :
    (limit : ℕ) (t line rest : Text)
    → cut_line t ≡ some (line, rest)
    → scan limit t ≡ fitting limit line rest
scan_cut limit [] line rest e = absurd (unfold cut_line in ground arith)
scan_cut limit (c ∷ cs) line rest e = unfold scan in ground arith

-- A whole line that fits the buffer is the next token.
pub scan_line :
    (limit : ℕ) (t rest : Text)
    → All (λ c. c ≢ b'\n') t
    → drop_cr t ≡ t
    → length t < limit
    → scan limit (t ++ (b'\n' ∷ rest)) ≡ token t rest
scan_line limit t rest inner final fits =
    scan_cut limit (t ++ (b'\n' ∷ rest)) t rest (cut_line-append t rest inner)
    ∙ unfold fitting in ground arith

drop_cr-cons : (c : ℕ) (t : Text) → c ≢ b'\r' → drop_cr t ≡ t → drop_cr (c ∷ t) ≡ c ∷ t
unfolding drop_cr
drop_cr-cons c [] h e = ground arith
drop_cr-cons c (d ∷ t) h e = ap (◌∷◌ c) e

drop_cr-prefix : (p t : Text) → All (λ c. c ≢ b'\r') p → drop_cr t ≡ t → drop_cr (p ++ t) ≡ p ++ t
drop_cr-prefix [] t h e = e
drop_cr-prefix (c ∷ cs) t h e = drop_cr-cons c (cs ++ t) h.0 (drop_cr-prefix cs t h.1 e)

classify-payload : (p : Text) → classify (b'|' ∷ b' ' ∷ p) ≡ payload p
unfolding classify strip_bar cut_prefix text_eq
classify-payload p = refl

classify-ok : classify ok_line ≡ last_ok
unfolding classify text_eq
classify-ok = refl

classify-err : (e : Text) → classify (err_prefix ++ e) ≡ last_err e
unfolding classify cut_prefix text_eq
classify-err e = refl

module _ (fuel : ℕ) (t line rest : Text) (s : scan client_limit t ≡ token line rest) where
  step_payload :
      (p : Text)
      → classify line ≡ payload p
      → let r = response fuel rest in response (suc fuel) t ≡ (p ∷ r.0, r.1, r.2)
  unfolding response
  step_payload p c = rw (s, c, response) refl

  step_ok : classify line ≡ last_ok → response (suc fuel) t ≡ ([], accepted, rest)
  unfolding response
  step_ok c = rw (s, c, response) refl

  step_err : (e : Text) → classify line ≡ last_err e → response (suc fuel) t ≡ ([], refused e, rest)
  unfolding response
  step_err e c = rw (s, c, response) refl

line_of : (p t stream : Text) → p ++ (t ++ (b'\n' ∷ stream)) ≡ (p ++ (t ++ (b'\n' ∷ []))) ++ stream
line_of p t stream =
    sym
      (append_assoc p (t ++ (b'\n' ∷ [])) stream ∙ ap (◌++◌ p) (append_assoc t (b'\n' ∷ []) stream))

-- A prefix of four bytes at most, then the text.
scan_prefixed :
    (p t stream : Text)
    → IsLine t
    → All (λ c. c ≢ b'\n') p
    → All (λ c. c ≢ b'\r') p
    → length p ≤ 4
    → scan client_limit ((p ++ (t ++ (b'\n' ∷ []))) ++ stream) ≡ token (p ++ t) stream
scan_prefixed p t stream h inner cr few =
    ap (scan client_limit) (sym (line_of p t stream) ∙ sym (append_assoc p t (b'\n' ∷ stream)))
    ∙ scan_line client_limit (p ++ t) stream (All-append (λ c. c ≢ b'\n') p t inner h.inner)
        (drop_cr-prefix p t cr h.final) (omega (arith, length-append p t, h.short))

response_payload :
    (fuel : ℕ) (p stream : Text)
    → IsLine p
    → let r = response fuel stream in
      response (suc fuel) (payload_line p ++ stream) ≡ (p ∷ r.0, r.1, r.2)
unfolding payload_line
response_payload fuel p stream h =
    step_payload fuel _ _ stream
      (scan_prefixed (b'|' ∷ b' ' ∷ []) p stream h (ground arith) (ground arith) (omega arith)) p
      (classify-payload p)

response_end :
    (fuel : ℕ) (e : Option Text) (rest : Text)
    → IsError e
    → response (suc fuel) (terminator e ++ rest) ≡ ([], verdict_of e, rest)
unfolding terminator
response_end fuel none rest h =
    step_ok fuel _ ok_line rest
      (scan_line client_limit ok_line rest (ground arith) (unfold drop_cr in refl) (omega arith))
      classify-ok
response_end fuel (some e) rest h =
    step_err fuel _ _ rest
      (scan_prefixed err_prefix e rest h (ground arith) (ground arith) (omega arith)) e
      (classify-err e)

-- A client never has to guess where a response ends: whatever bytes follow, it prints exactly the
-- payload lines and returns exactly the verdict that the server wrote, and reads none of those
-- bytes. (No payload line and no error message has a newline in it, ends in a carriage return or
-- is too long for the buffer, and there is fuel for the lines.)
pub response-write_response :
    (fuel : ℕ) (ps : List Text) (e : Option Text) (rest : Text)
    → length ps < fuel
    → All IsLine ps
    → IsError e
    → response fuel (write_response ps e ++ rest) ≡ (ps, verdict_of e, rest)
unfolding write_response
response-write_response zero ps e rest enough h k = absurd (omega arith)
response-write_response (suc fuel) [] e rest enough h k = response_end fuel e rest k
response-write_response (suc fuel) (p ∷ ps) e rest enough h k =
    let below : length ps < fuel = omega arith in
    rw
      (
        append_assoc (payload_line p) (write_response ps e) rest,
        response_payload fuel p (write_response ps e ++ rest) h.0,
        response-write_response fuel ps e rest below h.1 k,
      )
      refl

-- The bytes of a forged payload line, regrouped: a whole line, a whole "OK", and what is left.
forged_bytes :
    (p q more : Text)
    → payload_line (p ++ (b'\n' ∷ (ok_line ++ (b'\n' ∷ q)))) ++ more
      ≡ payload_line p ++ (terminator none ++ (q ++ (b'\n' ∷ more)))
unfolding payload_line terminator
forged_bytes p q more =
    ap (λ t. b'|' ∷ b' ' ∷ t)
      (append_assoc (p ++ (b'\n' ∷ (ok_line ++ (b'\n' ∷ q)))) (b'\n' ∷ []) more
        ∙ append_assoc p (b'\n' ∷ (ok_line ++ (b'\n' ∷ q))) (b'\n' ∷ more)
        ∙ sym (append_assoc p (b'\n' ∷ []) (ok_line ++ (b'\n' ∷ (q ++ (b'\n' ∷ more))))))

-- A payload with a newline in it breaks the framing: where a player's name puts "OK" on a line of its own,
-- the client takes it for the terminator, reports success, and leaves the rest of the response to be
-- read as that of its next command.
pub response_forged :
    (fuel : ℕ) (p q : Text) (ps : List Text) (e : Option Text) (rest : Text)
    → IsLine p
    → response
        (fuel + 2)
        (write_response ((p ++ (b'\n' ∷ (ok_line ++ (b'\n' ∷ q)))) ∷ ps) e ++ rest)
      ≡ (p ∷ [], accepted, q ++ (b'\n' ∷ (write_response ps e ++ rest)))
unfolding write_response
response_forged fuel p q ps e rest h =
    let more = write_response ps e ++ rest in
    let two : fuel + 2 ≡ suc (suc fuel) = omega arith in
    rw
      (
        append_assoc (payload_line (p ++ (b'\n' ∷ (ok_line ++ (b'\n' ∷ q))))) (write_response ps e)
            rest,
        forged_bytes p q more,
        two,
        response_payload (suc fuel) p (terminator none ++ (q ++ (b'\n' ∷ more))) h,
        response_end fuel none (q ++ (b'\n' ∷ more)) tt,
      )
      refl
