-- ===== src/Examples/Formats.antt =====
-- The admin console of internal/server/rcon.go: a way to print, and the lines of an admin.
use rbr_mp_server.Common.{◌+◌, [], ◌∷◌}
use rbr_mp_server.Common.Text.{Text}
use rbr_mp_server.Console.Listing.{Formats}
use rbr_mp_server.Console.Command.{Request}
use rbr_mp_server.Examples.Data.{late}
use rbr_mp_server.Examples.Files.{all_well}

-- Texts are printed as they are, and numbers as nothing.
abbrev pub formats : Formats
formats = record {
  lower = λ t. t;
  quote = λ t. t;
  rfc3339 = λ t. [];
  duration = λ d. [];
  local_addr = [];
  save_error = b'e' ∷ [];
}

abbrev pub typed : Text → Request
typed text = record { line = text; now = late; later = late + 1; files = all_well }

-- "AUTH pw", "kick 1" and a blank line
abbrev pub login : Request
login = typed (b'A' ∷ b'U' ∷ b'T' ∷ b'H' ∷ b' ' ∷ b'p' ∷ b'w' ∷ [])

abbrev pub password : Text
password = b'p' ∷ b'w' ∷ []
