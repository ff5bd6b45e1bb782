-- ===== src/Console/Command.antt =====
-- rconCommand of internal/server/rcon.go.
use rbr_mp_server.Common.{List, [], ◌∷◌, ◌++◌, map, Option, none, some, if◌then◌else◌}
use rbr_mp_server.Common.Text.{Text, text_eq}
use rbr_mp_server.Common.GoMap.{lookup}
use rbr_mp_server.Clock.{Time}
use rbr_mp_server.Server.Types.{Server, Outgoing}
use rbr_mp_server.Server.Bans.{Json, Outcomes}
use rbr_mp_server.Server.Chat.{say}
use rbr_mp_server.Server.Admin.{
  Library, reason_or, default_ban, kick, ban_target, ban_entry, record_ban, ban, unban, bans,
}
use rbr_mp_server.Console.Words.{fields, join_words}
use rbr_mp_server.Console.Messages
use rbr_mp_server.Console.Listing.{Formats, rcon_players, rcon_status, ban_line}

-- What the clock and the file system answer while a line is run. `now` and `later` are as in `ban`;
-- a kick has the time `later`.
pub record Moment : Type 0 where
  pub now : Time
  pub later : Time
  pub files : Outcomes

-- A line of the console at its moment.
pub record Request : Type 0 where
  pub line : Text
  pub now : Time
  pub later : Time
  pub files : Outcomes

-- The new state, the datagrams, the payload lines and the error.
pub record Reply : Type 0 where
  pub server : Server
  pub sent : List Outgoing
  pub lines : List Text
  pub error : Option Text

module _ (lib : Library) (j : Json) (fmt : Formats) where
  unfoldable pub quiet_reply : Server → List Text → Reply
  quiet_reply s lines = record { server = s; sent = []; lines = lines; error = none }

  unfoldable pub usage : Server → Text → Reply
  usage s text = record { server = s; sent = []; lines = []; error = some text }

  -- "no connected player matches %q"
  unfoldable pub no_match : Text → Text
  no_match who = Messages.no_player ++ fmt.quote who

  unfoldable pub kick_command : Server → Request → List Text → Reply
  unfolding usage no_match
  kick_command s r [] = usage s Messages.kick_usage
  kick_command s r (who ∷ words) =
      let (t, out, kicked) = kick lib s who (join_words words) r.later in
      record {
        server = t;
        sent = out;
        lines = [];
        error = if kicked then none else some (no_match who);
      }

  -- The error of a Ban that fails: its own, or that of `save`, or that of Kick.
  unfoldable pub ban_error : Server → Request → Text → Text → Text
  unfolding no_match
  ban_error s r who reason = elim (ban_target lib s who) [
    | none ↦ fmt.quote who ++ Messages.neither
    | some target ↦
        let (t, ops, saved) =
          record_ban lib j r.files s (ban_entry lib target (reason_or default_ban reason) r.now) in
        if saved then no_match who else fmt.save_error
  ]

  unfoldable pub ban_command : Server → Request → List Text → Reply
  unfolding usage ban_error
  ban_command s r [] = usage s Messages.ban_usage
  ban_command s r (who ∷ words) =
      let (t, out, ops, fine) = ban lib j r.files s who (join_words words) r.now r.later in
      record {
        server = t;
        sent = out;
        lines = [];
        error = if fine then none else some (ban_error s r who (join_words words));
      }

  unfoldable pub unban_command : Server → Request → List Text → Reply
  unfolding usage
  unban_command s r [] = usage s Messages.unban_usage
  unban_command s r (ip ∷ []) =
      let (t, ops, fine) = unban j r.files s ip in
      let why : Text = elim (lookup ip s.bans.entries) [
        | none ↦ ip ++ Messages.not_banned
        | some e ↦ fmt.save_error
      ] in
      record { server = t; sent = []; lines = []; error = if fine then none else some why }
  unban_command s r (ip ∷ w ∷ ws) = usage s Messages.unban_usage

  unfoldable pub say_command : Server → List Text → Reply
  unfolding usage
  say_command s [] = usage s Messages.say_usage
  say_command s (w ∷ ws) = record {
    server = s;
    sent = say s (join_words (w ∷ ws));
    lines = [];
    error = none;
  }

  -- The switch on the command.
  unfoldable pub switch : Server → Request → Text → List Text → Reply
  unfolding quiet_reply usage kick_command ban_command unban_command say_command rcon_players
      rcon_status ban_line
  switch s r cmd args =
      if text_eq cmd Messages.players_cmd
      then quiet_reply s (rcon_players s r.now)
      else if text_eq cmd Messages.kick_cmd
      then kick_command s r args
      else if text_eq cmd Messages.ban_cmd
      then ban_command s r args
      else if text_eq cmd Messages.unban_cmd
      then unban_command s r args
      else if text_eq cmd Messages.bans_cmd
      then quiet_reply s (map (ban_line fmt) (bans s))
      else if text_eq cmd Messages.say_cmd
      then say_command s args
      else if text_eq cmd Messages.status_cmd
      then quiet_reply s (rcon_status fmt s r.now)
      else if text_eq cmd Messages.quit_cmd
      then quiet_reply s []
      else usage s (Messages.unknown_command ++ fmt.quote cmd)

  -- `fields[0]` of no fields panics: `none`.
  unfoldable pub rcon_command : Server → Request → Option Reply
  unfolding switch
  rcon_command s r = elim (fields r.line) [
    | [] ↦ none
    | cmd ∷ args ↦ some (switch s r (fmt.lower cmd) args)
  ]
