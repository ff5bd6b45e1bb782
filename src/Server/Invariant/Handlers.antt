-- ===== src/Server/Invariant/Handlers.antt =====
-- join, state, pong and bye of internal/server/server.go keep the invariant.
use rbr_mp_server.Common.{
  ◌+◌, ◌%◌, ◌^◌, ◌≡◌, refl, sym, subst, inl, inr, none, some, [], arith, ◌==◌, if◌then◌else◌, not,
  ◌||◌, Option-cases, Bool-cases,
}
use rbr_mp_server.Common.GoMap.{lookup, delete}
use rbr_mp_server.Clock.{Time, is_zero}
use rbr_mp_server.History.Ring.{new_history, len}
use rbr_mp_server.History.Bounds.{IsHistory, add-IsHistory, new_history-IsHistory}
use rbr_mp_server.Protocol.Types.{Hello, State, Chat}
use rbr_mp_server.Protocol.Types
use rbr_mp_server.Server.Types.{UdpAddr, Client, Server, history_age}
use rbr_mp_server.Server.Session.{
  Order, client_locked, store, rename, join, newer, restarted, reordered, compare_seq, sample_of,
  accept, take_state, state, measure, pong, bye,
}
use rbr_mp_server.Server.Sessions.{delete_old}
use rbr_mp_server.Server.Invariant.{Inv, Keeps, HasIds, client_locked-Holds, store-Inv}

-- A Hello changes the name and the car of the client, and nothing else.
pub rename_frame :
    (c : Client) (h : Hello)
    → (rename c h).id ≡ c.id
      × (rename c h).addr_key ≡ c.addr_key
      × (rename c h).addr ≡ c.addr
      × (rename c h).history ≡ c.history
      × (rename c h).last_seen ≡ c.last_seen
unfolding rename
rename_frame c h = ground arith

accept-IsHistory :
    (c : Client) (st : State) (now : Time)
    → IsHistory c.history
    → IsHistory (accept c st now).history
unfolding accept
accept-IsHistory c st now h = add-IsHistory c.history (sample_of st now) h

accept_frame :
    (c : Client) (st : State) (now : Time)
    → ((accept c st now).id ≡ c.id)
      × ((accept c st now).addr_key ≡ c.addr_key)
      × ((accept c st now).addr ≡ c.addr)
      × ((accept c st now).last_seen ≡ c.last_seen)
unfolding accept
accept_frame c st now = (refl, refl, refl, refl)

-- A State leaves the identity of the client alone.
pub take_state_frame :
    (c : Client) (st : State) (now : Time)
    → ((take_state c st now).id ≡ c.id)
      × ((take_state c st now).addr_key ≡ c.addr_key)
      × ((take_state c st now).addr ≡ c.addr)
      × ((take_state c st now).last_seen ≡ c.last_seen)
unfolding take_state
take_state_frame c st now = ground (
  arith,
  accept_frame c st now,
  accept_frame (record c { history = new_history history_age }) st now,
)

-- The rule for `take_state`: the State is accepted, accepted on a new history, or dropped.
pub take_state_cases {ℓ} :
    (P : Client → Type ℓ) (c : Client) (st : State) (now : Time)
    → P (accept c st now)
    → P (accept (record c { history = new_history history_age }) st now)
    → P (record c { dropped = (c.dropped + 1) % 2 ^ 64 })
    → P (take_state c st now)
unfolding take_state
take_state_cases P c st now taken anew skipped = elim (Bool-cases (len c.history == 0)) [
  | inl e ↦ rw e taken
  | inr e ↦ rw e (by_order (compare_seq st.seq c.last_seq))
]
  where
    by_order :
        (o : Order)
        → P (elim o as (λ _. Client) [
          | newer ↦ accept c st now
          | restarted ↦ accept (record c { history = new_history history_age }) st now
          | reordered ↦ record c { dropped = (c.dropped + 1) % 2 ^ 64 }
        ])
    by_order newer = taken
    by_order restarted = anew
    by_order reordered = skipped

take_state-IsHistory :
    (c : Client) (st : State) (now : Time)
    → IsHistory c.history
    → IsHistory (take_state c st now).history
take_state-IsHistory c st now h =
    take_state_cases (λ (d : Client). IsHistory d.history) c st now (accept-IsHistory c st now h)
      (accept-IsHistory (record c { history = new_history history_age }) st now
        (new_history-IsHistory history_age))
      h

pub join-Keeps :
    (s : Server) (addr : UdpAddr) (h : Hello) (now : Time)
    → HasIds s
    → Inv s
    → Keeps s (join s addr h now).0
unfolding join
join-Keeps s addr h now ids v =
    let r = client_locked s addr h.name now in
    let (holds, le) = client_locked-Holds s addr h.name now ids v in
    let c = record r.1 { last_seen = now } in
    let (ei, ek, ea, eh, _) = rename_frame c h in
    let f = holds.inv.sessions.each addr.text r.1 holds.at in
    record {
      inv =
          store-Inv r.0 addr r.1 (rename c h) holds.inv holds.at (sym ei) (sym ek) (sym ea)
            (subst IsHistory (sym eh) f.history);
      ids = unfold store in le;
    }

pub state-Keeps :
    (s : Server) (addr : UdpAddr) (st : State) (now : Time)
    → HasIds s
    → Inv s
    → Keeps s (state s addr st now).0
unfolding state
state-Keeps s addr st now ids v =
    let r = client_locked s addr [] now in
    let (holds, le) = client_locked-Holds s addr [] now ids v in
    let c = record r.1 { last_seen = now } in
    let (ei, ek, ea, _) = take_state_frame c st now in
    let f = holds.inv.sessions.each addr.text r.1 holds.at in
    record {
      inv =
          store-Inv r.0 addr r.1 (take_state c st now) holds.inv holds.at (sym ei) (sym ek) (sym ea)
            (take_state-IsHistory c st now f.history);
      ids = unfold store in le;
    }

pub Keeps-refl : (s : Server) → Inv s → Keeps s s
Keeps-refl s v = record { inv = v; ids = omega arith }

-- Writing back the client that was found.
pub store-Keeps :
    (s : Server) (addr : UdpAddr) (c c' : Client)
    → Inv s
    → lookup addr.text s.clients ≡ some c
    → c.id ≡ c'.id
    → c.addr_key ≡ c'.addr_key
    → c.addr ≡ c'.addr
    → c.history ≡ c'.history
    → Keeps s (store s addr c')
store-Keeps s addr c c' v at ei ek ea eh = record {
  inv =
      store-Inv s addr c c' v at ei ek ea
        (subst IsHistory eh (v.sessions.each addr.text c at).history);
  ids = unfold store in omega arith;
}

pub pong_unknown :
    (s : Server) (addr : UdpAddr) (p : Types.Pong) (now : Time)
    → lookup addr.text s.clients ≡ none
    → pong s addr p now ≡ s
unfolding pong
pong_unknown s addr p now e = ground arith

pub pong_known :
    (s : Server) (addr : UdpAddr) (p : Types.Pong) (now : Time) (c : Client)
    → lookup addr.text s.clients ≡ some c
    → pong s addr p now ≡ (
        if is_zero c.ping_sent_at || not (p.token == c.ping_token)
        then s
        else store s addr (record c { rtt_ms = measure c now; ping_sent_at = 0 }))
unfolding pong
pong_known s addr p now c e = ground arith

pub pong-Keeps :
    (s : Server) (addr : UdpAddr) (p : Types.Pong) (now : Time)
    → Inv s
    → Keeps s (pong s addr p now)
pong-Keeps s addr p now v = elim (Option-cases (lookup addr.text s.clients)) [
  | inl e ↦ rw (pong_unknown s addr p now e) (Keeps-refl s v)
  | inr (c, e) ↦
      rw (pong_known s addr p now c e)
        (elim (Bool-cases (is_zero c.ping_sent_at || not (p.token == c.ping_token))) [
          | inl t ↦ rw t (Keeps-refl s v)
          | inr f ↦ rw f (store-Keeps s addr c _ v e refl refl refl refl)
        ])
]

pub bye_known :
    (s : Server) (addr : UdpAddr) (c : Client)
    → lookup addr.text s.clients ≡ some c
    → bye s addr ≡ record s { clients = delete c.addr_key s.clients }
unfolding bye
bye_known s addr c e = ground arith

pub bye_unknown : (s : Server) (addr : UdpAddr) → lookup addr.text s.clients ≡ none → bye s addr ≡ s
unfolding bye
bye_unknown s addr e = ground arith

pub bye-Keeps : (s : Server) (addr : UdpAddr) → Inv s → Keeps s (bye s addr)
bye-Keeps s addr v = elim (Option-cases (lookup addr.text s.clients)) [
  | inl e ↦ rw (bye_unknown s addr e) (Keeps-refl s v)
  | inr (c, e) ↦ rw (bye_known s addr c e) (record {
    inv = record {
      sessions = delete_old s.clients s.next_id v.sessions c.addr_key;
      positive = v.positive;
    };
    ids = omega arith;
  })
]
