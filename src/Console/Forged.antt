-- ===== src/Console/Forged.antt =====
-- `players` of internal/server/rcon.go with a player whose name holds newlines, as a Hello may bring.
use mathlib.Core.List.{append_assoc}
use rbr_mp_server.Common.{ℕ, ◌+◌, ◌≡◌, sym, ap, ◌∙◌, List, [], ◌∷◌, ◌++◌, map, none}
use rbr_mp_server.Common.Text.{Text}
use rbr_mp_server.Common.Decimal.{format_uint}
use rbr_mp_server.Clock.{Time}
use rbr_mp_server.Server.Types.{Client, Server}
use rbr_mp_server.Server.Tick.{live_clients}
use rbr_mp_server.Console.Response.{ok_line, write_response, accepted, response}
use rbr_mp_server.Console.Listing.{pieces, player_line, rcon_players}
use rbr_mp_server.Console.Framing.{IsLine, response_forged}

-- The line of a player, split where its name is.
player_line-name :
    (now : Time) (c : Client)
    → (tail : Text) × (player_line now c ≡ (format_uint c.id ++ (b' ' ∷ [])) ++ (c.name ++ tail))
unfolding player_line pieces
player_line-name now c = (_, sym (append_assoc (format_uint c.id) (b' ' ∷ []) _))

forged_line :
    (a p q tail : Text)
    → a ++ ((p ++ (b'\n' ∷ (ok_line ++ (b'\n' ∷ q)))) ++ tail)
      ≡ (a ++ p) ++ (b'\n' ∷ (ok_line ++ (b'\n' ∷ (q ++ tail))))
forged_line a p q tail =
    ap (◌++◌ a) (append_assoc p (b'\n' ∷ (ok_line ++ (b'\n' ∷ q))) tail)
    ∙ sym (append_assoc a p (b'\n' ∷ (ok_line ++ (b'\n' ∷ (q ++ tail)))))

-- Where the player with the lowest id has a name with "OK" on a line of its own, the client that
-- asks for `players` prints that player alone, up to the newline in the name, reports success, and
-- leaves the rest of the response unread, to be taken for the response to its next command. (The
-- part of the line before that newline is a line that fits the buffer.)
pub players_forged :
    (s : Server) (now : Time) (c : Client) (cs : List Client) (p q : Text) (fuel : ℕ) (rest : Text)
    → live_clients s ≡ c ∷ cs
    → c.name ≡ p ++ (b'\n' ∷ (ok_line ++ (b'\n' ∷ q)))
    → IsLine ((format_uint c.id ++ (b' ' ∷ [])) ++ p)
    → (tail : Text) × (response (fuel + 2) (write_response (rcon_players s now) none ++ rest) ≡ (
      ((format_uint c.id ++ (b' ' ∷ [])) ++ p) ∷ [],
      accepted,
      (q ++ tail) ++ (b'\n' ∷ (write_response (map (player_line now) cs) none ++ rest)),
    ))
unfolding rcon_players
players_forged s now c cs p q fuel rest live named line =
    let (tail, e) = player_line-name now c in
    let a = format_uint c.id ++ (b' ' ∷ []) in
    let shape : player_line now c ≡ (a ++ p) ++ (b'\n' ∷ (ok_line ++ (b'\n' ∷ (q ++ tail)))) =
      e ∙ ap (λ n. a ++ (n ++ tail)) named ∙ forged_line a p q tail in
    (
      tail,
      rw (live, shape)
          (response_forged fuel (a ++ p) (q ++ tail) (map (player_line now) cs) none rest line),
    )
