-- ===== src/Console/Messages.antt =====
-- The words and messages of internal/server/rcon.go and of the errors of internal/server/server.go.
use rbr_mp_server.Common.{[], ◌∷◌}
use rbr_mp_server.Common.Text.{Text}

-- "players"
abbrev pub players_cmd : Text
players_cmd = b'p' ∷ b'l' ∷ b'a' ∷ b'y' ∷ b'e' ∷ b'r' ∷ b's' ∷ []

-- "kick"
abbrev pub kick_cmd : Text
kick_cmd = b'k' ∷ b'i' ∷ b'c' ∷ b'k' ∷ []

-- "ban"
abbrev pub ban_cmd : Text
ban_cmd = b'b' ∷ b'a' ∷ b'n' ∷ []

-- "unban"
abbrev pub unban_cmd : Text
unban_cmd = b'u' ∷ b'n' ∷ b'b' ∷ b'a' ∷ b'n' ∷ []

-- "bans"
abbrev pub bans_cmd : Text
bans_cmd = b'b' ∷ b'a' ∷ b'n' ∷ b's' ∷ []

-- "say"
abbrev pub say_cmd : Text
say_cmd = b's' ∷ b'a' ∷ b'y' ∷ []

-- "status"
abbrev pub status_cmd : Text
status_cmd = b's' ∷ b't' ∷ b'a' ∷ b't' ∷ b'u' ∷ b's' ∷ []

-- "quit"
abbrev pub quit_cmd : Text
quit_cmd = b'q' ∷ b'u' ∷ b'i' ∷ b't' ∷ []

-- "usage: kick <id|name> [reason...]"
abbrev pub kick_usage : Text
kick_usage =
    b'u' ∷ b's' ∷ b'a' ∷ b'g' ∷ b'e' ∷ b':' ∷ b' ' ∷ b'k' ∷ b'i' ∷ b'c' ∷ b'k' ∷ b' ' ∷ b'<' ∷ b'i'
    ∷ b'd' ∷ b'|' ∷ b'n' ∷ b'a' ∷ b'm' ∷ b'e' ∷ b'>' ∷ b' ' ∷ b'[' ∷ b'r' ∷ b'e' ∷ b'a' ∷ b's'
    ∷ b'o' ∷ b'n' ∷ b'.' ∷ b'.' ∷ b'.' ∷ b']' ∷ []

-- "usage: ban <id|name|ip> [reason...]"
abbrev pub ban_usage : Text
ban_usage =
    b'u' ∷ b's' ∷ b'a' ∷ b'g' ∷ b'e' ∷ b':' ∷ b' ' ∷ b'b' ∷ b'a' ∷ b'n' ∷ b' ' ∷ b'<' ∷ b'i' ∷ b'd'
    ∷ b'|' ∷ b'n' ∷ b'a' ∷ b'm' ∷ b'e' ∷ b'|' ∷ b'i' ∷ b'p' ∷ b'>' ∷ b' ' ∷ b'[' ∷ b'r' ∷ b'e'
    ∷ b'a' ∷ b's' ∷ b'o' ∷ b'n' ∷ b'.' ∷ b'.' ∷ b'.' ∷ b']' ∷ []

-- "usage: unban <ip>"
abbrev pub unban_usage : Text
unban_usage =
    b'u' ∷ b's' ∷ b'a' ∷ b'g' ∷ b'e' ∷ b':' ∷ b' ' ∷ b'u' ∷ b'n' ∷ b'b' ∷ b'a' ∷ b'n' ∷ b' ' ∷ b'<'
    ∷ b'i' ∷ b'p' ∷ b'>' ∷ []

-- "usage: say <text...>"
abbrev pub say_usage : Text
say_usage =
    b'u' ∷ b's' ∷ b'a' ∷ b'g' ∷ b'e' ∷ b':' ∷ b' ' ∷ b's' ∷ b'a' ∷ b'y' ∷ b' ' ∷ b'<' ∷ b't' ∷ b'e'
    ∷ b'x' ∷ b't' ∷ b'.' ∷ b'.' ∷ b'.' ∷ b'>' ∷ []

-- "unknown command "
abbrev pub unknown_command : Text
unknown_command =
    b'u' ∷ b'n' ∷ b'k' ∷ b'n' ∷ b'o' ∷ b'w' ∷ b'n' ∷ b' ' ∷ b'c' ∷ b'o' ∷ b'm' ∷ b'm' ∷ b'a' ∷ b'n'
    ∷ b'd' ∷ b' ' ∷ []

-- "no connected player matches "
abbrev pub no_player : Text
no_player =
    b'n' ∷ b'o' ∷ b' ' ∷ b'c' ∷ b'o' ∷ b'n' ∷ b'n' ∷ b'e' ∷ b'c' ∷ b't' ∷ b'e' ∷ b'd' ∷ b' ' ∷ b'p'
    ∷ b'l' ∷ b'a' ∷ b'y' ∷ b'e' ∷ b'r' ∷ b' ' ∷ b'm' ∷ b'a' ∷ b't' ∷ b'c' ∷ b'h' ∷ b'e' ∷ b's'
    ∷ b' ' ∷ []

-- " is neither a connected player nor an IP"
abbrev pub neither : Text
neither =
    b' ' ∷ b'i' ∷ b's' ∷ b' ' ∷ b'n' ∷ b'e' ∷ b'i' ∷ b't' ∷ b'h' ∷ b'e' ∷ b'r' ∷ b' ' ∷ b'a' ∷ b' '
    ∷ b'c' ∷ b'o' ∷ b'n' ∷ b'n' ∷ b'e' ∷ b'c' ∷ b't' ∷ b'e' ∷ b'd' ∷ b' ' ∷ b'p' ∷ b'l' ∷ b'a'
    ∷ b'y' ∷ b'e' ∷ b'r' ∷ b' ' ∷ b'n' ∷ b'o' ∷ b'r' ∷ b' ' ∷ b'a' ∷ b'n' ∷ b' ' ∷ b'I' ∷ b'P' ∷ []

-- " is not banned"
abbrev pub not_banned : Text
not_banned =
    b' ' ∷ b'i' ∷ b's' ∷ b' ' ∷ b'n' ∷ b'o' ∷ b't' ∷ b' ' ∷ b'b' ∷ b'a' ∷ b'n' ∷ b'n' ∷ b'e' ∷ b'd'
    ∷ []

-- " banned "
abbrev pub banned_word : Text
banned_word = b' ' ∷ b'b' ∷ b'a' ∷ b'n' ∷ b'n' ∷ b'e' ∷ b'd' ∷ b' ' ∷ []

-- " by "
abbrev pub by_word : Text
by_word = b' ' ∷ b'b' ∷ b'y' ∷ b' ' ∷ []

-- "ms "
abbrev pub ms_word : Text
ms_word = b'm' ∷ b's' ∷ b' ' ∷ []

-- " up:"
abbrev pub up_word : Text
up_word = b' ' ∷ b'u' ∷ b'p' ∷ b':' ∷ []

-- "addr "
abbrev pub addr_word : Text
addr_word = b'a' ∷ b'd' ∷ b'd' ∷ b'r' ∷ b' ' ∷ []

-- "uptime "
abbrev pub uptime_word : Text
uptime_word = b'u' ∷ b'p' ∷ b't' ∷ b'i' ∷ b'm' ∷ b'e' ∷ b' ' ∷ []

-- "tick "
abbrev pub tick_word : Text
tick_word = b't' ∷ b'i' ∷ b'c' ∷ b'k' ∷ b' ' ∷ []

-- " Hz)"
abbrev pub hz_word : Text
hz_word = b' ' ∷ b'H' ∷ b'z' ∷ b')' ∷ []

-- "clients "
abbrev pub clients_word : Text
clients_word = b'c' ∷ b'l' ∷ b'i' ∷ b'e' ∷ b'n' ∷ b't' ∷ b's' ∷ b' ' ∷ []

-- "rx "
abbrev pub rx_word : Text
rx_word = b'r' ∷ b'x' ∷ b' ' ∷ []

-- "tx "
abbrev pub tx_word : Text
tx_word = b't' ∷ b'x' ∷ b' ' ∷ []

-- " pkt "
abbrev pub pkt_word : Text
pkt_word = b' ' ∷ b'p' ∷ b'k' ∷ b't' ∷ b' ' ∷ []

-- " bytes"
abbrev pub bytes_word : Text
bytes_word = b' ' ∷ b'b' ∷ b'y' ∷ b't' ∷ b'e' ∷ b's' ∷ []

-- " ("
abbrev pub open_word : Text
open_word = b' ' ∷ b'(' ∷ []
