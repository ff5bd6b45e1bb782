-- ===== src/Server/Invariant/Timers.antt =====
-- tick of internal/server/server.go keeps the invariant, and what it does to each session.
use rbr_mp_server.Common.{
  ℕ, ◌≡◌, ◌∙◌, refl, true, false, Bool, not, none, some, List, [], ◌∷◌, arith, if◌then◌else◌,
  Option-cases, Bool-cases, inl, inr,
}
use rbr_mp_server.Common.Text.{Text}
use rbr_mp_server.Common.GoMap.{lookup, keep, update_all, lookup-keep, lookup-update_all}
use rbr_mp_server.Clock.{Time, longer}
use rbr_mp_server.Server.Types.{Client, Server}
use rbr_mp_server.Server.Session.{uptime_ms}
use rbr_mp_server.Server.Tick.{reap, ping_due, pinged, ping_all, tick}
use rbr_mp_server.Server.Sessions.{Fits, keep_old, update_old}
use rbr_mp_server.Server.Invariant.{Inv, Keeps}

-- A client after the ping loop.
unfoldable pub after_ping : ℕ → Time → Client → Client
after_ping token now c = if ping_due c now then pinged c token now else c

pub ping_all-update_all :
    (m : List (Text × Client)) (token : ℕ) (now : Time)
    → (ping_all m token now).0 ≡ update_all (after_ping token now) m
unfolding ping_all update_all after_ping
ping_all-update_all [] token now = refl
ping_all-update_all ((k, c) ∷ m) token now = elim (Bool-cases (ping_due c now)) [
  | inl e ↦ ground (arith, ping_all-update_all m token now)
  | inr e ↦ ground (arith, ping_all-update_all m token now)
]

after_ping-Fits :
    (token : ℕ) (now : Time) (n : ℕ) (k : Text) (c : Client)
    → Fits k n c
    → Fits k n (after_ping token now c) × (c.id ≡ (after_ping token now c).id)
unfolding after_ping pinged
after_ping-Fits token now n k c f = elim (Bool-cases (ping_due c now)) [
  | inl e ↦ rw e (
    record {
      keyed = f.keyed;
      replies = f.replies;
      positive = f.positive;
      given = f.given;
      history = f.history;
    },
    refl,
  )
  | inr e ↦ rw e (f, refl)
]

-- A ping changes the fields that remember it, and no other.
pub after_ping_values :
    (token : ℕ) (now : Time) (c : Client)
    → ((after_ping token now c).last_client_time_ms ≡ c.last_client_time_ms)
      × ((after_ping token now c).history ≡ c.history)
      × ((after_ping token now c).addr ≡ c.addr)
      × ((after_ping token now c).id ≡ c.id)
      × ((after_ping token now c).last_seen ≡ c.last_seen)
      × ((after_ping token now c).name ≡ c.name)
unfolding after_ping pinged
after_ping_values token now c = ground (arith, Bool-cases (ping_due c now))

-- Whether the reaper leaves a client in the table.
abbrev pub alive : Server → Time → Client → Bool
alive s now c = not (longer now c.last_seen s.cfg.timeout)

pub tick-clients :
    (s : Server) (now : Time)
    → (tick s now).0.clients
      ≡ update_all (after_ping (uptime_ms s now) now) (keep (alive s now) s.clients)
unfolding tick reap uptime_ms
tick-clients s now = ping_all-update_all (keep (alive s now) s.clients) (uptime_ms s now) now

pub tick-next_id : (s : Server) (now : Time) → (tick s now).0.next_id ≡ s.next_id
unfolding tick reap
tick-next_id s now = refl

pub tick-Keeps : (s : Server) (now : Time) → Inv s → Keeps s (tick s now).0
tick-Keeps s now v = record {
  inv = record {
    sessions =
        rw (tick-clients s now, tick-next_id s now)
          (update_old (keep (alive s now) s.clients) s.next_id
            (keep_old s.clients s.next_id v.sessions (alive s now))
            (after_ping (uptime_ms s now) now)
            (λ k c f. after_ping-Fits (uptime_ms s now) now s.next_id k c f));
    positive = rw (tick-next_id s now) v.positive;
  };
  ids = omega (arith, tick-next_id s now);
}

-- A tick of a well-formed server forgets exactly the sessions that have been silent for longer
-- than the timeout; every other session stays, and is pinged if a ping is due.
pub tick-lookup :
    (s : Server) (now : Time) (k : Text)
    → Inv s
    → lookup k (tick s now).0.clients ≡ elim (lookup k s.clients) [
      | none ↦ none
      | some c ↦
          if longer now c.last_seen s.cfg.timeout
          then none
          else some (after_ping (uptime_ms s now) now c)
    ]
tick-lookup s now k v =
    rw
      (
        tick-clients s now,
        lookup-update_all (after_ping (uptime_ms s now) now) k (keep (alive s now) s.clients),
      )
      (elim (Option-cases (lookup k s.clients)) [
        | inl e ↦ ground (arith, lookup-keep (alive s now) k s.clients v.sessions.map)
        | inr (c, e) ↦ ground (arith, lookup-keep (alive s now) k s.clients v.sessions.map)
      ])

-- Who was heard within the timeout is left after a tick.
pub tick-stays :
    (s : Server) (now : Time) (k : Text) (c : Client)
    → Inv s
    → lookup k s.clients ≡ some c
    → longer now c.last_seen s.cfg.timeout ≡ false
    → lookup k (tick s now).0.clients ≡ some (after_ping (uptime_ms s now) now c)
tick-stays s now k c v l heard = tick-lookup s now k v ∙ rw l (rw heard refl)

-- Who was not is forgotten.
pub tick_forgets :
    (s : Server) (now : Time) (k : Text) (c : Client)
    → Inv s
    → lookup k s.clients ≡ some c
    → longer now c.last_seen s.cfg.timeout ≡ true
    → lookup k (tick s now).0.clients ≡ none
tick_forgets s now k c v l silent = tick-lookup s now k v ∙ rw l (rw silent refl)

pub tick_absent :
    (s : Server) (now : Time) (k : Text)
    → Inv s
    → lookup k s.clients ≡ none
    → lookup k (tick s now).0.clients ≡ none
tick_absent s now k v l = tick-lookup s now k v ∙ rw l refl
