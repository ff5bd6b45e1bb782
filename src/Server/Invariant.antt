-- ===== src/Server/Invariant.antt =====
-- The well-formedness of the server's state, and that every handler keeps it.
pub mod Handlers
pub mod ChatLine
pub mod Datagram
pub mod Timers
pub mod Console
use rbr_mp_server.Common.{
  ℕ, suc, ◌+◌, ◌-◌, ◌%◌, ◌^◌, ◌≤◌, ◌<◌, ◌≡◌, refl, sym, ap, subst, ◌∙◌, ◌⊎◌, inl, inr, Bool, true,
  false, Option, none, some, List, [], ◌∷◌, arith, ◌==◌, if◌then◌else◌, Option-cases, Bool-cases,
}
use rbr_mp_server.Common.Text.{Text}
use rbr_mp_server.Common.GoMap.{lookup, insert, delete, keep}
use rbr_mp_server.Common.GoMap.Cases.{lookup-insert_self}
use rbr_mp_server.Clock.{Time}
use rbr_mp_server.History.Ring.{History, new_history, add, len}
use rbr_mp_server.History.Bounds.{IsHistory, add-IsHistory, new_history-IsHistory}
use rbr_mp_server.Protocol.Types.{Hello, State, Chat}
use rbr_mp_server.Protocol.Types
use rbr_mp_server.Server.Types.{UdpAddr, Client, Server, history_age}
use rbr_mp_server.Server.Session.{
  new_client, default_name, client_locked, store, rename, join, newer, restarted, reordered,
  compare_seq, sample_of, accept, take_state, state, measure, pong, bye,
}
use rbr_mp_server.Server.Sessions.{Fits, Sessions, insert_old, insert_new, delete_old}

-- The ids that can still be given out before nextID wraps.
abbrev pub HasIds : Server → Type 0
HasIds s = s.next_id + 1 < 2 ^ 32

pub record Inv (s : Server) : Type 0 where
  pub sessions : Sessions s.clients s.next_id
  pub positive : 1 ≤ s.next_id

-- The step from `s` to `t` keeps the invariant and gives out one id at most.
pub record Keeps (s t : Server) : Type 0 where
  pub inv : Inv t
  pub ids : t.next_id ≤ s.next_id + 1

-- `s` has the client `c` under the address.
pub record Holds (s : Server) (addr : UdpAddr) (c : Client) : Type 0 where
  pub inv : Inv s
  pub at : lookup addr.text s.clients ≡ some c

new_client-Fits :
    (n : ℕ) (addr : UdpAddr) (name : Text) (now : Time)
    → 1 ≤ n
    → Fits addr.text (n + 1) (new_client n addr name now)
unfolding new_client
new_client-Fits n addr name now pos = record {
  keyed = refl;
  replies = refl;
  positive = pos;
  given = omega arith;
  history = new_history-IsHistory history_age;
}

new_client-id :
    (n : ℕ) (addr : UdpAddr) (name : Text) (now : Time) → (new_client n addr name now).id ≡ n
unfolding new_client
new_client-id n addr name now = refl

pub client_locked_old :
    (s : Server) (addr : UdpAddr) (name : Text) (now : Time) (c : Client)
    → lookup addr.text s.clients ≡ some c
    → client_locked s addr name now ≡ (s, c, false)
unfolding client_locked
client_locked_old s addr name now c e = ground arith

pub client_locked_new :
    (s : Server) (addr : UdpAddr) (name : Text) (now : Time)
    → HasIds s
    → lookup addr.text s.clients ≡ none
    → let c = new_client s.next_id addr (default_name s.next_id name) now in
      client_locked s addr name now
      ≡ (record s { clients = insert addr.text c s.clients; next_id = s.next_id + 1 }, c, true)
unfolding client_locked
client_locked_new s addr name now ids e =
    let fits : (s.next_id + 1) % 2 ^ 32 ≡ s.next_id + 1 = omega arith in ground arith

pub client_locked-Holds :
    (s : Server) (addr : UdpAddr) (name : Text) (now : Time)
    → HasIds s
    → Inv s
    → let r = client_locked s addr name now in Holds r.0 addr r.1 × (r.0.next_id ≤ s.next_id + 1)
client_locked-Holds s addr name now ids v = elim (Option-cases (lookup addr.text s.clients)) [
  | inr (c, e) ↦
      rw (client_locked_old s addr name now c e) (record { inv = v; at = e }, omega arith)
  | inl e ↦
      let c = new_client s.next_id addr (default_name s.next_id name) now in
      rw (client_locked_new s addr name now ids e) (
        record {
          inv = record {
            sessions =
                insert_new s.clients s.next_id v.sessions addr.text c
                  (new_client-Fits s.next_id addr (default_name s.next_id name) now v.positive)
                  (new_client-id s.next_id addr (default_name s.next_id name) now);
            positive = omega (arith, v.positive);
          };
          at = lookup-insert_self s.clients addr.text c;
        },
        omega arith,
      )
]

-- Writing back a client that kept its id, its address and a well-formed history.
pub store-Inv :
    (s : Server) (addr : UdpAddr) (c c' : Client)
    → Inv s
    → lookup addr.text s.clients ≡ some c
    → c.id ≡ c'.id
    → c.addr_key ≡ c'.addr_key
    → c.addr ≡ c'.addr
    → IsHistory c'.history
    → Inv (store s addr c')
unfolding store
store-Inv s addr c c' v at ei ek ea h =
    let f = v.sessions.each addr.text c at in
    record {
      sessions =
          insert_old s.clients s.next_id v.sessions addr.text c c' at
            (record {
              keyed = sym ek ∙ f.keyed;
              replies = ap (λ (a : UdpAddr). a.text) (sym ea) ∙ f.replies;
              positive = omega (arith, f.positive, ei);
              given = omega (arith, f.given, ei);
              history = h;
            })
            ei;
      positive = v.positive;
    }
