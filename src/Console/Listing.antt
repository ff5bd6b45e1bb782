-- ===== src/Console/Listing.antt =====
-- rconPlayers and rconStatus of internal/server/rcon.go, and the lines of its `bans`.
use rbr_mp_server.Common.{
  ℕ, zero, suc, ◌+◌, ◌-◌, ◌*◌, ◌/◌, ◌%◌, List, [], ◌∷◌, ◌++◌, map, if◌then◌else◌, ltb, length, min,
}
use rbr_mp_server.Common.Int.{ℤ, pos, negsuc}
use rbr_mp_server.Common.Text.{Text}
use rbr_mp_server.Common.Decimal.{digits_onto, format_uint}
use rbr_mp_server.Clock.{Time, Duration, second, sub_time}
use rbr_mp_server.Server.Types.{Client, BanEntry, Server}
use rbr_mp_server.Server.Tick.{live_clients}
use rbr_mp_server.Console.Messages

-- What the Go library prints: strings.ToLower, `%q`, RFC3339 times, Duration.String, the bound
-- address, and the text of an error of `save`.
pub record Formats : Type 0 where
  pub lower : Text → Text
  pub quote : Text → Text
  pub rfc3339 : Time → Text
  pub duration : Duration → Text
  pub local_addr : Text
  pub save_error : Text

-- The text that a format puts together.
unfoldable pub pieces : List Text → Text
pieces [] = []
pieces (t ∷ ts) = t ++ pieces ts

abbrev pub space : Text
space = b' ' ∷ []

unfoldable pub or_dash : Text → Text
or_dash [] = b'-' ∷ []
or_dash (c ∷ cs) = c ∷ cs

-- `d.Round(time.Second)` in whole seconds: half a second is rounded away from zero, and what an int64
-- does not hold stays at its end.
unfoldable pub round_seconds : Duration → ℤ
round_seconds (pos n) = pos (min ((n + second / 2) / second) 9_223_372_036)
round_seconds (negsuc n) =
    let q : ℕ = min ((suc n + second / 2) / second) 9_223_372_036 in
    elim q [ zero ↦ pos 0 | suc m ↦ negsuc m ]

-- `%02d`
unfoldable pub pad_2 : ℤ → Text
pad_2 (pos n) = if ltb n 10 then b'0' ∷ digits_onto 20 n [] else digits_onto 20 n []
pad_2 (negsuc n) = b'-' ∷ digits_onto 20 (suc n) []

-- The minutes, and the seconds that are left, both rounded towards zero.
unfoldable pub minutes : ℤ → ℤ
minutes (pos n) = pos (n / 60)
minutes (negsuc n) = elim (suc n / 60) [ zero ↦ pos 0 | suc m ↦ negsuc m ]

unfoldable pub seconds_left : ℤ → ℤ
seconds_left (pos n) = pos (n % 60)
seconds_left (negsuc n) = elim (suc n % 60) [ zero ↦ pos 0 | suc m ↦ negsuc m ]

-- "%d %s %s %dms %s up:%02d:%02d"
unfoldable pub player_line : Time → Client → Text
unfolding or_dash round_seconds pad_2 minutes seconds_left
player_line now c =
    let up = round_seconds (sub_time now c.joined_at) in
    pieces (
      format_uint c.id
      ∷ space
      ∷ c.name
      ∷ space
      ∷ or_dash c.car
      ∷ space
      ∷ format_uint c.rtt_ms
      ∷ Messages.ms_word
      ∷ c.addr.text
      ∷ Messages.up_word
      ∷ pad_2 (minutes up)
      ∷ (b':' ∷ [])
      ∷ pad_2 (seconds_left up)
      ∷ [])

unfoldable pub rcon_players : Server → Time → List Text
unfolding player_line
rcon_players s now = map (player_line now) (live_clients s)

module _ (fmt : Formats) where
  -- "%s %s %q banned %s by %s"
  unfoldable pub ban_line : BanEntry → Text
  ban_line e = pieces (
      e.ip
      ∷ space
      ∷ or_dash e.name
      ∷ space
      ∷ fmt.quote e.reason
      ∷ Messages.banned_word
      ∷ fmt.rfc3339 e.banned_at
      ∷ Messages.by_word
      ∷ e.banned_by
      ∷ [])

  -- `time.Second/s.cfg.TickAt`, for the positive periods that `New` leaves.
  unfoldable pub hertz : Duration → ℕ
  hertz (pos n) = second / n
  hertz (negsuc n) = 0

  unfoldable pub traffic : Text → ℕ → ℕ → Text
  traffic word count bytes = pieces (
      word
      ∷ digits_onto 20 count []
      ∷ Messages.pkt_word
      ∷ digits_onto 20 bytes []
      ∷ Messages.bytes_word
      ∷ [])

  unfoldable pub rcon_status : Server → Time → List Text
  unfolding hertz traffic
  rcon_status s now =
      (Messages.addr_word ++ fmt.local_addr)
      ∷ (Messages.uptime_word ++ fmt.duration (whole (round_seconds (sub_time now s.started))))
      ∷ pieces (
          Messages.tick_word
          ∷ fmt.duration s.cfg.tick_at
          ∷ Messages.open_word
          ∷ digits_onto 20 (hertz s.cfg.tick_at) []
          ∷ Messages.hz_word
          ∷ [])
      ∷ (Messages.clients_word ++ digits_onto 20 (length s.clients) [])
      ∷ traffic Messages.rx_word s.rx_count s.rx_bytes
      ∷ traffic Messages.tx_word s.tx_count s.tx_bytes
      ∷ []
    where
      whole : ℤ → Duration
      whole (pos n) = pos (n * second)
      whole (negsuc n) = negsuc (suc n * second - 1)
