-- ===== src/Server/PingPong.antt =====
-- The round trip measurement of internal/server/server.go: the Ping of a tick and the Pong after it.
use rbr_mp_server.Common.{
  ℕ, ◌+◌, ◌-◌, ◌*◌, ◌/◌, ◌%◌, ◌^◌, ◌≤◌, ◌<◌, ◌≡◌, ap, ◌∙◌, ◌≢◌, true, false, not, ◌||◌, some, arith,
  ◌==◌, min,
}
use rbr_mp_server.Common.GoMap.{lookup}
use rbr_mp_server.Common.GoMap.Cases.{lookup-insert_self}
use rbr_mp_server.Common.Int.{to_u32}
use rbr_mp_server.Clock.{Time, millisecond, zero_time, is_zero, longer, sub_time, milliseconds}
use rbr_mp_server.Protocol.Types.{Pong}
use rbr_mp_server.Server.Types.{UdpAddr, Client, Server}
use rbr_mp_server.Server.Session.{uptime_ms, store, measure, pong}
use rbr_mp_server.Server.Tick.{ping_due, pinged, tick}
use rbr_mp_server.Server.Invariant.{Inv}
use rbr_mp_server.Server.Invariant.Handlers.{pong_known}
use rbr_mp_server.Server.Invariant.Timers.{after_ping, tick-lookup}

measure_forward :
    (c : Client) (later : Time)
    → c.ping_sent_at ≤ later
    → later < c.ping_sent_at + 2 ^ 32 * millisecond
    → measure c later ≡ (later - c.ping_sent_at) / millisecond
unfolding measure sub_time milliseconds to_u32
measure_forward c later h k =
    let whole : min (later - c.ping_sent_at) (2 ^ 63 - 1) ≡ later - c.ping_sent_at = omega arith in
    let fits : (later - c.ping_sent_at) / millisecond % 2 ^ 32
        ≡ (later - c.ping_sent_at) / millisecond =
      omega arith in
    ground arith

-- A Pong with another token than the outstanding one, or with none outstanding, changes nothing.
pub pong_ignored :
    (s : Server) (addr : UdpAddr) (p : Pong) (now : Time) (c : Client)
    → lookup addr.text s.clients ≡ some c
    → (is_zero c.ping_sent_at || not (p.token == c.ping_token)) ≡ true
    → pong s addr p now ≡ s
pong_ignored s addr p now c e h = pong_known s addr p now c e ∙ rw h

stored :
    (s : Server) (addr : UdpAddr) (c : Client) → lookup addr.text (store s addr c).clients ≡ some c
unfolding store
stored s addr c = lookup-insert_self s.clients addr.text c

pong_taken :
    (s : Server) (addr : UdpAddr) (p : Pong) (now : Time) (c : Client)
    → lookup addr.text s.clients ≡ some c
    → (is_zero c.ping_sent_at || not (p.token == c.ping_token)) ≡ false
    → lookup addr.text (pong s addr p now).clients
      ≡ some (record c { rtt_ms = measure c now; ping_sent_at = zero_time })
pong_taken s addr p now c e h =
    ap (λ (t : Server). lookup addr.text t.clients) written ∙ stored s addr c'
  where
    c' : Client
    c' = record c { rtt_ms = measure c now; ping_sent_at = zero_time }

    written : pong s addr p now ≡ store s addr c'
    written = pong_known s addr p now c e ∙ rw h

module _ (s : Server) (addr : UdpAddr) (c : Client) (now : Time) (v : Inv s)
    (session : lookup addr.text s.clients ≡ some c)
    (seen : longer now c.last_seen s.cfg.timeout ≡ false) (due : ping_due c now ≡ true)
    (started : 0 < now) where
  pinged_by_tick : lookup addr.text (tick s now).0.clients ≡ some (pinged c (uptime_ms s now) now)
  pinged_by_tick = tick-lookup s now addr.text v ∙ rw (session, seen) (unfold after_ping in rw due)

  -- The round trip of a session that a tick pings, on a well-formed server: a Pong that echoes the
  -- token before 2 ^ 32 ms have passed sets the measured milliseconds from the tick to the Pong
  -- and ends the measurement; a Pong with another token is ignored; and after the measurement a
  -- second Pong, with any token, is ignored too.
  pub round_trip_measured :
      (later again : Time) (other any : Pong)
      → now ≤ later
      → later < now + 2 ^ 32 * millisecond
      → other.token ≢ uptime_ms s now
      → let t = (tick s now).0 in
        let u = pong t addr (record { token = uptime_ms s now }) later in
        (lookup addr.text u.clients
          ≡ some (record (pinged c (uptime_ms s now) now) {
            rtt_ms = (later - now) / millisecond;
            ping_sent_at = zero_time;
          }))
        × (pong t addr other later ≡ t)
        × (pong u addr any again ≡ u)
  round_trip_measured later again other any h k ne = (measured, wrong, twice)
    where
      t : Server
      t = (tick s now).0

      u : Server
      u = pong t addr (record { token = uptime_ms s now }) later

      taken :
          lookup addr.text u.clients
          ≡ some (record (pinged c (uptime_ms s now) now) {
            rtt_ms = measure (pinged c (uptime_ms s now) now) later;
            ping_sent_at = zero_time;
          })
      taken =
          pong_taken t addr (record { token = uptime_ms s now }) later _ pinged_by_tick
            (unfold pinged in ground arith)

      measured :
          lookup addr.text u.clients
          ≡ some (record (pinged c (uptime_ms s now) now) {
            rtt_ms = (later - now) / millisecond;
            ping_sent_at = zero_time;
          })
      measured =
          taken
          ∙ ap
              (λ (n : ℕ).
                some (record (pinged c (uptime_ms s now) now) {
                  rtt_ms = n;
                  ping_sent_at = zero_time;
                }))
              (unfold pinged in measure_forward (pinged c (uptime_ms s now) now) later h k)

      wrong : pong t addr other later ≡ t
      wrong = pong_ignored t addr other later _ pinged_by_tick (unfold pinged in ground arith)

      twice : pong u addr any again ≡ u
      twice = pong_ignored u addr any again _ taken (ground arith)
