-- ===== src/Examples/Console.antt =====
-- Kick and Ban of internal/server/server.go and the ban list of internal/server/bans.go with two
-- players.
use rbr_mp_server.Common.{
  replicate, ℕ, ◌+◌, ◌*◌, ◌≡◌, refl, subst, ◌⊎◌, List, [], ◌∷◌, none, some, true, false, take,
  arith, ◌≢◌, inl, inr, Bool-cases,
}
use rbr_mp_server.Common.Text.{Text, text_eq, text_eq_iff}
use rbr_mp_server.Common.Utf8.{followers, valid_from}
use rbr_mp_server.Common.GoMap.{lookup, insert, values}
use rbr_mp_server.Common.Sort.{insert_by, sort_by}
use rbr_mp_server.Common.Decimal.{format_uint}
use rbr_mp_server.Clock.{second, sub_time, at_least}
use rbr_mp_server.Protocol.Types.{Hello}
use rbr_mp_server.Protocol.Reader.{get16, get32, return, name, read, until_nul}
use rbr_mp_server.Protocol.Reader
use rbr_mp_server.Protocol.Decode
use rbr_mp_server.Protocol.Decode.{parse_header, read_hello, decode_hello}
use rbr_mp_server.Server.Session.{join}
use rbr_mp_server.Server.Race.{Passes, kick_race}
use rbr_mp_server.Server.Types.{Client, BanEntry, Server, ban_notice_every}
use rbr_mp_server.Server.Bans.{Outcomes, get, list, save_temp, save, apply_ops, load_bans, loaded}
use rbr_mp_server.Server.Bans.Save.{IsTemp, Contents, save_crash, save_result}
use rbr_mp_server.Server.Bans.Reload.{IsText, IsBans, load_bans-save}
use rbr_mp_server.Server.Handle.{kicked_recently, time_of, handle}
use rbr_mp_server.Server.Admin.{kick, find_client, ban, reason_or, default_ban, banned_by_rcon}
use rbr_mp_server.Server.BanEffect.{notice, banned_refused, ban_player_effect}
use rbr_mp_server.Server.FindClient.{find_client_by_id}
use rbr_mp_server.Examples.Data.{bob, bob_addr, room, room-Inv, bob_ban, bob_banned, library, late}
use rbr_mp_server.Examples.Files.{json, unmarshal-marshal, all_well, disk}

bob_session : lookup bob_addr.text room.clients ≡ some bob
unfolding lookup text_eq
bob_session = refl

bob_found : find_client library room (format_uint 2) ≡ some bob
bob_found = find_client_by_id library room bob_addr.text bob room-Inv (omega arith) bob_session

ban_player_effect_example :
    let r = ban library json all_well room (format_uint 2) [] 5 6 in
    (get r.0.bans bob_addr.ip
      ≡ some (record {
        ip = bob_addr.ip;
        name = bob.name;
        reason = reason_or default_ban [];
        banned_at = 5;
        banned_by = banned_by_rcon;
      }))
    × (lookup bob_addr.text r.0.clients ≡ none)
    × (lookup bob_addr.text r.0.recently_kicked ≡ some 6)
ban_player_effect_example =
    ban_player_effect library json all_well room (format_uint 2) [] 5 6 bob bob_found

abbrev guarded : Server
guarded = record room { bans = bob_banned }

bob_entered : get bob_banned bob_addr.ip ≡ some bob_ban
unfolding get lookup text_eq
bob_entered = refl

untold :
    at_least (late + 9 * second) (time_of bob_addr.text guarded.last_ban_notice) ban_notice_every
    ≡ true
unfolding sub_time time_of lookup
untold = refl

banned_refused_example :
    let r = handle guarded (1 ∷ []) bob_addr (late + 9 * second) in
    (r ≡ (
      record guarded {
        last_ban_notice = insert bob_addr.text (late + 9 * second) guarded.last_ban_notice;
      },
      notice bob_addr bob_ban ∷ [],
    ))
    × (handle r.0 (2 ∷ []) bob_addr (late + 10 * second) ≡ (r.0, []))
banned_refused_example =
    banned_refused guarded (1 ∷ []) (2 ∷ []) bob_addr (late + 9 * second) (late + 10 * second)
      bob_ban bob_entered untold (omega arith)

same_some : {a b : Text} → some a ≡ some b → a ≡ b
same_some e = cc

new-IsTemp : (temp : Text) → some (b't' ∷ []) ≡ some temp → IsTemp (b'f' ∷ []) temp disk
new-IsTemp temp e =
    subst (λ x. IsTemp (b'f' ∷ []) x disk) (same_some e)
      (record {
        other = λ p.
            unfold text_eq in absurd (ground (arith, (text_eq_iff (b't' ∷ []) (b'f' ∷ [])).1 p));
        new = unfold lookup text_eq in refl;
      })

save_crash_example :
    let after = lookup (b'f' ∷ []) (apply_ops (take 2 (save json all_well bob_banned).0) disk) in
    (after ≡ lookup (b'f' ∷ []) disk)
    ⊎ ((b : List ℕ) × Contents json bob_banned b × (after ≡ some b))
save_crash_example = save_crash json all_well bob_banned disk new-IsTemp 2

-- The rename fails, and then os.Remove too.
abbrev stuck : Outcomes
stuck = record all_well { rename_fails = true; remove_fails = true }

save_result_example :
    let r = save json stuck bob_banned in
    (r.1 ≡ true
      → (b : List ℕ) × Contents json bob_banned b
        × (lookup (b'f' ∷ []) (apply_ops r.0 disk) ≡ some b))
    × (r.1 ≡ false
        → ((p : Text) → some (b't' ∷ []) ≢ some p → lookup p (apply_ops r.0 disk) ≡ lookup p disk)
          × (true ≡ false → (p : Text) → lookup p (apply_ops r.0 disk) ≡ lookup p disk))
save_result_example = save_result json stuck bob_banned disk new-IsTemp

bob_banned-IsBans : IsBans bob_banned.entries
bob_banned-IsBans = record {
  map = (unfold lookup in refl, tt);
  keyed = λ ip e h. unfold lookup in ground (arith, text_eq_iff (b'b' ∷ []) ip);
}

bob_ban-IsText : IsText bob_ban
bob_ban-IsText =
    unfold valid_from followers in
    record { ip = refl; name = refl; reason = refl; banned_by = refl }

banned-IsText : (ip : Text) (e : BanEntry) → lookup ip bob_banned.entries ≡ some e → IsText e
banned-IsText ip e h = elim (Bool-cases (text_eq (b'b' ∷ []) ip)) [
  | inl t ↦ subst IsText (found t) bob_ban-IsText
  | inr f ↦ absurd (missing f)
]
  where
    found : text_eq (b'b' ∷ []) ip ≡ true → bob_ban ≡ e
    found t = unfold lookup in cc

    missing : text_eq (b'b' ∷ []) ip ≡ false → ⊥
    missing f = unfold lookup in cc

saved : (save json all_well bob_banned).1 ≡ true
unfolding save values sort_by insert_by list save_temp
saved = refl

load_bans-save_example :
    (m : List (Text × BanEntry)) × (load_bans json true
        (b'f' ∷ [])
        (apply_ops (save json all_well bob_banned).0 disk)
      ≡ loaded (record { path = b'f' ∷ []; entries = m }))
    × ((ip : Text) → lookup ip m ≡ lookup ip bob_banned.entries)
load_bans-save_example =
    load_bans-save json all_well bob_banned disk (λ es text _ e. unmarshal-marshal es text e)
      new-IsTemp bob_banned-IsBans banned-IsText saved

-- A Hello without a name and a car.
abbrev hello_bytes : List ℕ
hello_bytes = 79 ∷ 82 ∷ 77 ∷ 80 ∷ 3 ∷ 0 ∷ 1 ∷ 0 ∷ replicate 48 0

abbrev nameless : Hello
nameless = record { name = []; car = [] }

hello-Passes : Passes room hello_bytes bob_addr late nameless
unfolding get32 get16 Decode.run read_hello Reader.◌>>=◌ return name read until_nul
hello-Passes = record {
  free = unfold get lookup in refl;
  hello = unfold parse_header in refl;
  welcome = unfold kicked_recently lookup in refl;
  read = unfold decode_hello in refl;
}

kick_race_example :
    let t = (kick library room (format_uint 2) [] (late + 1)).0 in
    (handle room hello_bytes bob_addr late ≡ join room bob_addr nameless late)
    × (lookup bob_addr.text t.clients ≡ none)
    × (lookup bob_addr.text (join t bob_addr nameless late).0.recently_kicked ≡ some (late + 1))
    × ((d : Client) × (lookup bob_addr.text (join t bob_addr nameless late).0.clients ≡ some d))
kick_race_example =
    kick_race library room hello_bytes bob_addr late (late + 1) nameless (format_uint 2) [] bob
      hello-Passes bob_found refl
