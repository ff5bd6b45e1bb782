-- ===== src/Server/Session.antt =====
-- The handlers of internal/server/server.go that keep a client's session: clientLocked,
-- sendWelcome, join, state, pong and the Bye case of handle. A handler returns the new server and
-- the datagrams that it sends once the lock is released.
use rbr_mp_server.Common.{
  ℕ, ◌+◌, ◌-◌, ◌/◌, ◌%◌, ◌^◌, List, [], ◌∷◌, ◌++◌, none, some, Bool, true, false, not, ◌&&◌, ◌||◌,
  if◌then◌else◌, ◌==◌,
}
use rbr_mp_server.Common.Int.{pos, negsuc, to_i32, to_u32, ltb_ℤ}
use rbr_mp_server.Common.Text.{Text, text_eq}
use rbr_mp_server.Common.GoMap.{lookup, insert, delete}
use rbr_mp_server.Common.Decimal.{format_uint}
use rbr_mp_server.Clock.{Time, Duration, second, zero_time, is_zero, sub_time, milliseconds}
use rbr_mp_server.History.Sample.{Sample}
use rbr_mp_server.History.Ring.{new_history, add, len}
use rbr_mp_server.Protocol.Types.{Hello, State, Welcome}
use rbr_mp_server.Protocol.Types
use rbr_mp_server.Protocol.Encode.{encode_welcome}
use rbr_mp_server.Server.Types.{UdpAddr, Client, Server, Outgoing, history_age}

-- `uint32(now.Sub(s.started).Milliseconds())`
unfoldable pub uptime_ms : Server → Time → ℕ
uptime_ms s now = to_u32 (milliseconds (sub_time now s.started))

-- "Player "
abbrev pub player_prefix : Text
player_prefix = b'P' ∷ b'l' ∷ b'a' ∷ b'y' ∷ b'e' ∷ b'r' ∷ b' ' ∷ []

unfoldable pub new_client : ℕ → UdpAddr → Text → Time → Client
new_client id addr name now = record {
  id = id;
  name = name;
  car = [];
  addr = addr;
  addr_key = addr.text;
  joined_at = now;
  last_seen = zero_time;
  history = new_history history_age;
  last_client_time_ms = 0;
  last_seq = 0;
  packets = 0;
  dropped = 0;
  last_chat = zero_time;
  rtt_ms = 0;
  ping_token = 0;
  ping_sent_at = zero_time;
  last_ping_at = zero_time;
}

unfoldable pub default_name : ℕ → Text → Text
default_name id [] = player_prefix ++ format_uint id
default_name id (c ∷ cs) = c ∷ cs

-- Finds or creates the client of an address; the flag is `created`.
unfoldable pub client_locked : Server → UdpAddr → Text → Time → Server × Client × Bool
unfolding default_name
client_locked s addr name now = elim (lookup addr.text s.clients) [
  | some c ↦ (s, c, false)
  | none ↦
      let c = new_client s.next_id addr (default_name s.next_id name) now in
      (
        record s { clients = insert addr.text c s.clients; next_id = (s.next_id + 1) % 2 ^ 32 },
        c,
        true,
      )
]

-- The fields of a client are written through its pointer: the entry of the map changes.
unfoldable pub store : Server → UdpAddr → Client → Server
store s addr c = record s { clients = insert addr.text c s.clients }

-- `time.Second / s.cfg.TickAt` for the positive periods that `New` leaves.
unfoldable pub tick_rate : Duration → ℕ
tick_rate (pos n) = second / n % 2 ^ 16
tick_rate (negsuc n) = 0

unfoldable pub welcome : Server → Client → Time → Outgoing
unfolding uptime_ms tick_rate
welcome s c now = record {
  addr = c.addr;
  bytes = encode_welcome (record {
    player_id = c.id;
    tick_rate_hz = tick_rate s.cfg.tick_at;
    echo_delay_ms = 0;
    server_time_ms = uptime_ms s now;
  });
}

-- What a Hello does to the fields of the client.
unfoldable pub rename : Client → Hello → Client
rename c h =
    let named =
      if not (text_eq h.name []) && not (text_eq h.name c.name)
      then record c { name = h.name }
      else c in
    if not (text_eq h.car named.car) then record named { car = h.car } else named

unfoldable pub join : Server → UdpAddr → Hello → Time → Server × List Outgoing
unfolding client_locked store welcome rename
join s addr h now =
    let (s1, c, created) = client_locked s addr h.name now in
    let c1 = rename (record c { last_seen = now }) h in
    let s2 = store s1 addr c1 in (s2, welcome s2 c1 now ∷ [])

-- The three ways in which a State's sequence number compares with the last one.
pub data Order : Type 0 where
  newer restarted reordered : Order

-- `delta := int32(st.Seq - c.lastSeq)`
unfoldable pub compare_seq : ℕ → ℕ → Order
compare_seq seq last =
    let delta = to_i32 ((seq + 2 ^ 32 - last) % 2 ^ 32) in
    if ltb_ℤ (pos 0) delta then newer else if ltb_ℤ delta (negsuc 999) then restarted else reordered

unfoldable pub sample_of : State → Time → Sample
sample_of st now = record {
  recv_at = now;
  client_time_ms = st.client_time_ms;
  transform = st.transform;
  telemetry = st.telemetry;
}

unfoldable pub accept : Client → State → Time → Client
unfolding sample_of
accept c st now = record c {
  last_seq = st.seq;
  last_client_time_ms = st.client_time_ms;
  packets = (c.packets + 1) % 2 ^ 64;
  history = add c.history (sample_of st now);
}

unfoldable pub take_state : Client → State → Time → Client
unfolding accept len compare_seq
take_state c st now =
    if len c.history == 0 then accept c st now else elim (compare_seq st.seq c.last_seq) [
      | newer ↦ accept c st now
      | restarted ↦ accept (record c { history = new_history history_age }) st now
      | reordered ↦ record c { dropped = (c.dropped + 1) % 2 ^ 64 }
    ]

unfoldable pub state : Server → UdpAddr → State → Time → Server × List Outgoing
unfolding client_locked store welcome take_state
state s addr st now =
    let (s1, c, created) = client_locked s addr [] now in
    let c1 = take_state (record c { last_seen = now }) st now in
    let s2 = store s1 addr c1 in (s2, if created then welcome s2 c1 now ∷ [] else [])

-- `rtt := now.Sub(c.pingSentAt).Milliseconds()`, not below 0, as a uint32.
unfoldable pub measure : Client → Time → ℕ
measure c now =
    let rtt = milliseconds (sub_time now c.ping_sent_at) in
    if ltb_ℤ rtt (pos 0) then 0 else to_u32 rtt

unfoldable pub pong : Server → UdpAddr → Types.Pong → Time → Server
unfolding store measure
pong s addr p now = elim (lookup addr.text s.clients) [
  | none ↦ s
  | some c ↦
      if is_zero c.ping_sent_at || not (p.token == c.ping_token)
      then s
      else store s addr (record c { rtt_ms = measure c now; ping_sent_at = zero_time })
]

unfoldable pub bye : Server → UdpAddr → Server
bye s addr = elim (lookup addr.text s.clients) [
  | none ↦ s
  | some c ↦ record s { clients = delete c.addr_key s.clients }
]
