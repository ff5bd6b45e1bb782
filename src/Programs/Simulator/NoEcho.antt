-- ===== src/Programs/Simulator/NoEcho.antt =====
-- cmd/rbrmp-sim/main.go on the snapshots that internal/server/server.go sends.
use rbr_mp_server.Common.{
  ℕ, zero, suc, take, leb, if◌then◌else◌, Bool-cases, inl, inr, ◌+◌, ◌^◌, ◌≤◌, ◌≡◌, refl, ap, ◌∙◌,
  List, [], ◌∷◌, map, Option, none, some, arith, length, All,
}
use rbr_mp_server.Common.Int.{ℤ}
use rbr_mp_server.Common.Sort.{In, All_of_In}
use rbr_mp_server.Clock.{Time}
use rbr_mp_server.Protocol.Types.{Error, Entity, Snapshot, short, type_snapshot}
use rbr_mp_server.Protocol.Sizes.{length-encode_snapshot}
use rbr_mp_server.Protocol.Truncated.{take-encode_snapshot, decode_snapshot-take}
use rbr_mp_server.Server.Relay.Wire.{snapshot-IsSnapshot}
use rbr_mp_server.Protocol.Encode.{encode_snapshot}
use rbr_mp_server.Protocol.Decode.{ok, parse_header, decode_snapshot}
use rbr_mp_server.Protocol.Layout.{encode_snapshot-layout}
use rbr_mp_server.Protocol.Header.{parse_header-header}
use rbr_mp_server.Protocol.RoundTrip.Snapshot.{wire_entity}
use rbr_mp_server.Server.Types.{Client, Server}
use rbr_mp_server.Server.Tick.{entity_of, entities, snapshot, live_clients}
use rbr_mp_server.Server.Values.Run.{Good}
use rbr_mp_server.Server.Relay.EntityList.{In-entities}
use rbr_mp_server.Server.Relay.Sending.{snapshot_datagram, received}
use rbr_mp_server.Programs.Simulator.{Math}
use rbr_mp_server.Programs.Simulator.Receive.{
  Drive, buffer_size, measured, difference, is_echo, client_ms, look, measure, receive,
}

abbrev Plain : Entity → Type 0
Plain e = e.flags ≡ 0

snapshot_typed : (sn : Snapshot) → parse_header (encode_snapshot sn) ≡ ok type_snapshot
snapshot_typed sn =
    rw (encode_snapshot-layout sn) (parse_header-header type_snapshot _ (omega arith))

cut_typed :
    (sn : Snapshot) → parse_header (take buffer_size (encode_snapshot sn)) ≡ ok type_snapshot
cut_typed sn =
    rw (take-encode_snapshot sn buffer_size (omega arith))
      (parse_header-header type_snapshot _ (omega arith))

take-long : (xs : List ℕ) (n : ℕ) → length xs ≤ n → take n xs ≡ xs
take-long [] zero h = refl
take-long [] (suc n) h = refl
take-long (x ∷ xs) zero h = absurd (omega arith)
take-long (x ∷ xs) (suc n) h = ap (◌∷◌ x) (take-long xs n (omega arith))

module _ (o : Math) (d : Drive) where
  look-Plain :
      (now : ℕ) (clock : ℕ → Time) (n : ℕ) (es : List Entity) (echo : Option (ℤ × ℕ)) (others : ℕ)
      → All Plain es
      → look o d now clock n es echo others ≡ (echo, others + length es)
  unfolding look is_echo
  look-Plain now clock n [] echo others h =
      let same : others ≡ others + 0 = omega arith in λ i. (echo, same i)
  look-Plain now clock n (e ∷ es) echo others h =
      let rest = look-Plain now clock (suc n) es echo (others + 1) h.1 in
      let count : others + 1 + length es ≡ others + suc (length es) = omega arith in
      rw h.0 (rest ∙ (λ i. (echo, count i)))

  entities-Plain :
      (s : Server) (now : Time) (me : Client) (others : List Client)
      → All Plain (map wire_entity (entities s now me others))
  entities-Plain s now me others = map_plain (entities s now me others) (
      All_of_In Plain (entities s now me others) (λ e i.
        let (c, _, w) = In-entities s now me others e i in
        ap (λ (x : Entity). x.flags) w.entity ∙ unfold entity_of in refl))
    where
      map_plain : (es : List Entity) → All Plain es → All Plain (map wire_entity es)
      map_plain [] h = tt
      map_plain (e ∷ es) h = (h.0, map_plain es h.1)

  length-map_wire : (es : List Entity) → length (map wire_entity es) ≡ length es
  length-map_wire [] = refl
  length-map_wire (e ∷ es) = ap suc (length-map_wire es)

  receive_snapshot :
      (at : Time) (clock : ℕ → Time) (b : List ℕ) (sn : Snapshot)
      → parse_header (take buffer_size b) ≡ ok type_snapshot
      → decode_snapshot (take buffer_size b) ≡ (sn, none)
      → receive o d at clock b ≡ some (measure o d at clock sn)
  unfolding receive
  receive_snapshot at clock b sn p q =
      rw (p, q, receive) (ap (λ (x : Snapshot × Option Error). some (measure o d at clock x.0)) q)

  receive_broken :
      (at : Time) (clock : ℕ → Time) (b : List ℕ)
      → parse_header (take buffer_size b) ≡ ok type_snapshot
      → (decode_snapshot (take buffer_size b)).1 ≡ some short
      → receive o d at clock b ≡ none
  unfolding receive
  receive_broken at clock b p q = rw (p, q, receive) refl

  measure-Plain :
      (at : Time) (clock : ℕ → Time) (sn : Snapshot)
      → All Plain sn.entities
      → measure o d at clock sn
        ≡ measured (difference (client_ms d at) sn.last_client_time_ms) none (length sn.entities)
  unfolding measure
  measure-Plain at clock sn h =
      rw (look-Plain (client_ms d at) clock 0 sn.entities none 0 h) (zero_plus (length sn.entities))
    where
      zero_plus :
          (n : ℕ)
          → measured (difference (client_ms d at) sn.last_client_time_ms) none (0 + n)
            ≡ measured (difference (client_ms d at) sn.last_client_time_ms) none n
      zero_plus n =
          let same : 0 + n ≡ n = omega arith in
          ap (λ m. measured (difference (client_ms d at) sn.last_client_time_ms) none m) same

  snapshot_parts :
      (s : Server) (now : Time) (me : Client)
      → ((snapshot s now (live_clients s) me).entities ≡ entities s now me (live_clients s))
        × ((snapshot s now (live_clients s) me).last_client_time_ms ≡ me.last_client_time_ms)
  unfolding snapshot
  snapshot_parts s now me = (refl, refl)

  -- The simulator never sees an echo of this server. The datagram with the snapshot of any session,
  -- if the snapshot has at most 52 entities, is reported as one that has no echo and as many others
  -- as the snapshot has entities, with the round trip taken from the client time that the server
  -- holds. With more entities the datagram does not fit the buffer of 8192 bytes, and nothing is
  -- reported. (The server's table is well formed and in range, and at most 2 ^ 16 - 1 ids have been
  -- given out.)
  pub receive-snapshot_datagram :
      (s : Server) (now at : Time) (me : Client) (clock : ℕ → Time)
      → Good s
      → s.next_id ≤ 2 ^ 16
      → In me (live_clients s)
      → let others = length (snapshot s now (live_clients s) me).entities in
        receive o d at clock (snapshot_datagram s now me).bytes ≡ (
          if leb others 52
          then some (measured (difference (client_ms d at) me.last_client_time_ms) none others)
          else none)
  receive-snapshot_datagram s now at me clock g few i =
      let sn = snapshot s now (live_clients s) me in
      let (es, last) = snapshot_parts s now me in
      let ok_sn = snapshot-IsSnapshot s now me g few i in
      let size = length-encode_snapshot sn ok_sn.entities in
      elim (Bool-cases (leb (length sn.entities) 52)) [
        | inl small ↦
            let whole : take buffer_size (encode_snapshot sn) ≡ encode_snapshot sn =
              take-long (encode_snapshot sn) buffer_size (ground (arith, size, small)) in
            rw small (
              receive_snapshot at clock (encode_snapshot sn) _
                (ap parse_header whole ∙ snapshot_typed sn)
                (ap decode_snapshot whole ∙ received s now me g few i)
              ∙ ap some (
                  measure-Plain at clock (record sn { entities = map wire_entity sn.entities })
                    (rw es (entities-Plain s now me (live_clients s)))
                  ∙ rw (length-map_wire sn.entities, last) refl))
        | inr large ↦ rw large (
            receive_broken at clock (encode_snapshot sn) (cut_typed sn)
              (decode_snapshot-take sn buffer_size ok_sn (omega arith) (ground (arith, large))))
      ]
