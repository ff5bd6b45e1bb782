-- ===== src/Server/Admin.antt =====
-- findClientLocked, Kick, Ban, Unban and Bans of internal/server/server.go.
use rbr_mp_server.Common.{
  ℕ, List, [], ◌∷◌, ◌++◌, Option, none, some, Bool, true, false, ◌&&◌, if◌then◌else◌, ◌==◌,
}
use rbr_mp_server.Common.Text.{Text}
use rbr_mp_server.Common.GoMap.{insert, delete, values}
use rbr_mp_server.Common.Decimal.{parse_uint}
use rbr_mp_server.Clock.{Time}
use rbr_mp_server.Protocol.Encode.{encode_kick}
use rbr_mp_server.Server.Types.{Client, BanEntry, Server, Outgoing}
use rbr_mp_server.Server.Bans.{Json, Outcomes, FileOp, add, remove, save, list}
use rbr_mp_server.Server.Handle.{banned_prefix}

-- What the Go library decides: strings.EqualFold, and net.ParseIP followed by String.
pub record Library : Type 0 where
  pub equal_fold : Text → Text → Bool
  pub parse_ip : Text → Option Text

-- A `range` loop that returns the first client that passes the test.
unfoldable pub first_client : (Client → Bool) → List Client → Option Client
first_client p [] = none
first_client p (c ∷ cs) = let rest = first_client p cs in if p c then some c else rest

unfoldable pub by_id : Option ℕ → List Client → Option Client
unfolding first_client
by_id none cs = none
by_id (some id) cs = first_client (λ c. c.id == id) cs

-- "kicked" and "banned"
abbrev pub default_kick : Text
default_kick = b'k' ∷ b'i' ∷ b'c' ∷ b'k' ∷ b'e' ∷ b'd' ∷ []

abbrev pub default_ban : Text
default_ban = b'b' ∷ b'a' ∷ b'n' ∷ b'n' ∷ b'e' ∷ b'd' ∷ []

-- "rcon"
abbrev pub banned_by_rcon : Text
banned_by_rcon = b'r' ∷ b'c' ∷ b'o' ∷ b'n' ∷ []

unfoldable pub reason_or : Text → Text → Text
reason_or d [] = d
reason_or d (c ∷ cs) = c ∷ cs

module _ (lib : Library) where
  unfoldable pub find_client : Server → Text → Option Client
  find_client s who = elim (by_id (parse_uint who) (values s.clients)) [
    | some c ↦ some c
    | none ↦ first_client (λ c. lib.equal_fold c.name who) (values s.clients)
  ]

  -- The session is deleted and its address noted; three copies of the Kick go out.
  unfoldable pub kick_client : Server → Client → Text → Time → Server × List Outgoing
  kick_client s c reason now =
      let notice : Outgoing = record {
        addr = c.addr;
        bytes = encode_kick (record { reason = reason });
      } in
      (
        record s {
          clients = delete c.addr_key s.clients;
          recently_kicked = insert c.addr_key now s.recently_kicked;
        },
        notice ∷ notice ∷ notice ∷ [],
      )

  -- The last component is whether Kick returned nil.
  unfoldable pub kick : Server → Text → Text → Time → Server × List Outgoing × Bool
  unfolding find_client kick_client reason_or
  kick s who reason now = elim (find_client s who) [
    | none ↦ (s, [], false)
    | some c ↦
        let (s1, out) = kick_client s c (reason_or default_kick reason) now in (s1, out, true)
  ]

  -- `ip, name` of the target, or `none` where it is neither a connected player nor an IP.
  unfoldable pub ban_target : Server → Text → Option (Text × Text)
  unfolding find_client
  ban_target s who = elim (find_client s who) [
    | some c ↦ some (c.addr.ip, c.name)
    | none ↦ elim (lib.parse_ip who) [ none ↦ none | some ip ↦ some (ip, []) ]
  ]

  unfoldable pub ban_entry : Text × Text → Text → Time → BanEntry
  ban_entry (ip, name) reason now = record {
    ip = ip;
    name = name;
    reason = reason;
    banned_at = now;
    banned_by = banned_by_rcon;
  }

  -- The state after the entry is added; the calls and the result of the save.
  unfoldable pub record_ban : Json → Outcomes → Server → BanEntry → Server × List FileOp × Bool
  record_ban j f s e =
      let bans = add s.bans e in
      let (ops, saved) = save j f bans in (record s { bans = bans }, ops, saved)

  -- `now` and `later` are the clock at the two calls of time.Now. The target is resolved once for
  -- the ban and once more by Kick.
  unfoldable pub ban :
      Json
      → Outcomes
      → Server
      → Text
      → Text
      → Time
      → Time
      → Server × List Outgoing × List FileOp × Bool
  unfolding kick ban_target ban_entry record_ban
  ban j f s who reason now later = elim (ban_target s who) [
    | none ↦ (s, [], [], false)
    | some target ↦
        let why = reason_or default_ban reason in
        let (s1, ops, saved) = record_ban j f s (ban_entry target why now) in
        elim (find_client s who) [
          | none ↦ (s1, [], ops, saved)
          | some c ↦
              let (s2, out, kicked) = kick s1 who (banned_prefix ++ why) later in
              (s2, out, ops, saved && kicked)
        ]
  ]

unfoldable pub unban : Json → Outcomes → Server → Text → Server × List FileOp × Bool
unban j f s ip =
    let (bans, was_banned) = remove s.bans ip in
    let (ops, saved) = save j f bans in
    if was_banned then (record s { bans = bans }, ops, saved) else (s, [], false)

unfoldable pub bans : Server → List BanEntry
bans s = list s.bans
