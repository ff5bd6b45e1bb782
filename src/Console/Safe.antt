-- ===== src/Console/Safe.antt =====
-- What no line of the admin console of internal/server/rcon.go can do to the server.
use rbr_mp_server.Common.{
  ◌≡◌, refl, sym, ap, subst, ◌∙◌, ◌≢◌, List, [], ◌∷◌, ◌++◌, Option, none, some, Bool, true, false,
  if◌then◌else◌, Bool-cases, Option-cases, inl, inr, arith,
}
use rbr_mp_server.Common.Text.{Text, text_eq, text_eq_iff}
use rbr_mp_server.Server.Types.{Server, Outgoing}
use rbr_mp_server.Server.Bans.{Json}
use rbr_mp_server.Server.Admin.{Library}
use rbr_mp_server.Server.Invariant.{Inv}
use rbr_mp_server.Server.Invariant.Console.{kick-Keeps, ban-Keeps, unban-Keeps}
use rbr_mp_server.Console.Words.{trim_space, fields}
use rbr_mp_server.Console.Response.{cut_prefix, terminator, write_response}
use rbr_mp_server.Console.Messages
use rbr_mp_server.Console.Listing.{Formats}
use rbr_mp_server.Console.Command.{
  Request, Reply, quiet_reply, usage, kick_command, ban_command, unban_command, say_command, switch,
  rcon_command,
}
use rbr_mp_server.Console.Session.{
  auth_prefix, auth_failed, Outcome, ended_at, before, commands, rcon_session,
}
use rbr_mp_server.Console.Total.{fields-trim_space}

-- A property of both branches is one of the conditional.
if_both {ℓ κ} :
    {A : Type ℓ} (P : A → Type κ) (b : Bool) {x y : A} → P x → P y → P (if b then x else y)
if_both P true p q = p
if_both P false p q = q

module _ (lib : Library) (j : Json) (fmt : Formats) where
  abbrev KeepsInv : Reply → Type 0
  KeepsInv reply = Inv reply.server

  kick_command-Inv :
      (s : Server) (r : Request) (args : List Text)
      → Inv s
      → Inv (kick_command lib j fmt s r args).server
  unfolding kick_command usage
  kick_command-Inv s r [] v = v
  kick_command-Inv s r (who ∷ words) v = (kick-Keeps lib s who _ r.later v).inv

  ban_command-Inv :
      (s : Server) (r : Request) (args : List Text)
      → Inv s
      → Inv (ban_command lib j fmt s r args).server
  unfolding ban_command usage
  ban_command-Inv s r [] v = v
  ban_command-Inv s r (who ∷ words) v = (ban-Keeps lib j r.files s who _ r.now r.later v).inv

  unban_command-Inv :
      (s : Server) (r : Request) (args : List Text)
      → Inv s
      → Inv (unban_command lib j fmt s r args).server
  unfolding unban_command usage
  unban_command-Inv s r [] v = v
  unban_command-Inv s r (ip ∷ []) v = (unban-Keeps j r.files s ip v).inv
  unban_command-Inv s r (ip ∷ w ∷ ws) v = v

  say_command-Inv :
      (s : Server) (args : List Text) → Inv s → Inv (say_command lib j fmt s args).server
  unfolding say_command usage
  say_command-Inv s [] v = v
  say_command-Inv s (w ∷ ws) v = v

  switch-Inv :
      (s : Server) (r : Request) (cmd : Text) (args : List Text)
      → Inv s
      → Inv (switch lib j fmt s r cmd args).server
  unfolding switch quiet_reply usage
  switch-Inv s r cmd args v = if_both KeepsInv (text_eq cmd Messages.players_cmd) v (
      if_both KeepsInv (text_eq cmd Messages.kick_cmd) (kick_command-Inv s r args v) (
        if_both KeepsInv (text_eq cmd Messages.ban_cmd) (ban_command-Inv s r args v) (
          if_both KeepsInv (text_eq cmd Messages.unban_cmd) (unban_command-Inv s r args v) (
            if_both KeepsInv (text_eq cmd Messages.bans_cmd) v (
              if_both KeepsInv (text_eq cmd Messages.say_cmd) (say_command-Inv s args v) (
                if_both KeepsInv (text_eq cmd Messages.status_cmd) v
                  (if_both KeepsInv (text_eq cmd Messages.quit_cmd) v v)))))))

  -- A command whose line has a word is run, and keeps the session table.
  rcon_command_runs :
      (s : Server) (r : Request)
      → Inv s
      → fields r.line ≢ []
      → (reply : Reply) × (rcon_command lib j fmt s r ≡ some reply) × Inv reply.server
  rcon_command_runs s r v some_word = go (fields r.line) refl some_word
    where
      go :
          (words : List Text)
          → fields r.line ≡ words
          → words ≢ []
          → (reply : Reply) × (rcon_command lib j fmt s r ≡ some reply) × Inv reply.server
      go [] e ne = absurd (ne refl)
      go (cmd ∷ args) e ne = (
        switch lib j fmt s r (fmt.lower cmd) args,
        unfold rcon_command in ground arith,
        switch-Inv s r (fmt.lower cmd) args v,
      )

  -- The session went on without a panic and left the session table well formed.
  record IsFine (o : Outcome) : Type 0 where
    inv : Inv o.server
    calm : o.panicked ≡ false

  before-IsFine :
      (sent : List Outgoing) (output : Text) (o : Outcome)
      → IsFine o
      → IsFine (before sent output o)
  unfolding before
  before-IsFine sent output o f = record { inv = f.inv; calm = f.calm }

  ended_at-IsFine : (s : Server) → Inv s → IsFine (ended_at s)
  unfolding ended_at
  ended_at-IsFine s v = record { inv = v; calm = refl }

  commands_blank :
      (s : Server) (r : Request) (rs : List Request)
      → text_eq (trim_space r.line) [] ≡ true
      → commands lib j fmt s (r ∷ rs) ≡ before [] (write_response [] none) (commands lib j fmt s rs)
  unfolding commands
  commands_blank s r rs h = rw h refl

  pub commands_reply :
      (s : Server) (r : Request) (rs : List Request) (reply : Reply)
      → text_eq (trim_space r.line) [] ≡ false
      → rcon_command lib j fmt s (record r { line = trim_space r.line }) ≡ some reply
      → commands lib j fmt s (r ∷ rs)
        ≡ before reply.sent (write_response reply.lines reply.error) (
            if text_eq (trim_space r.line) Messages.quit_cmd
            then ended_at reply.server
            else commands lib j fmt reply.server rs)
  unfolding commands
  commands_reply s r rs reply h e = rw (h, e) refl

  commands-IsFine : (s : Server) (rs : List Request) → Inv s → IsFine (commands lib j fmt s rs)
  unfolding commands
  commands-IsFine s [] v = ended_at-IsFine s v
  commands-IsFine s (r ∷ rs) v = elim (Bool-cases (text_eq (trim_space r.line) [])) [
    | inl blank ↦
        subst IsFine (sym (commands_blank s r rs blank))
          (before-IsFine [] (write_response [] none) _ (commands-IsFine s rs v))
    | inr full ↦
        let (reply, e, w) =
          rcon_command_runs s (record r { line = trim_space r.line }) v
            (fields-trim_space r.line (λ p. cc (full, (text_eq_iff (trim_space r.line) []).1 p))) in
        subst IsFine (sym (commands_reply s r rs reply full e)) (
          before-IsFine reply.sent (write_response reply.lines reply.error) _ (
            if_both IsFine (text_eq (trim_space r.line) Messages.quit_cmd)
              (ended_at-IsFine reply.server w) (commands-IsFine reply.server rs w)))
  ]

  session-IsFine :
      (password : Text) (s : Server) (rs : List Request)
      → Inv s
      → IsFine (rcon_session lib j fmt password s rs)
  unfolding rcon_session
  session-IsFine password s [] v = ended_at-IsFine s v
  session-IsFine password s (r ∷ rs) v = first (cut_prefix auth_prefix (trim_space r.line))
    where
      failed : IsFine (before [] (write_response [] (some auth_failed)) (ended_at s))
      failed = before-IsFine [] (write_response [] (some auth_failed)) _ (ended_at-IsFine s v)

      first :
          (pw : Option Text)
          → IsFine (elim pw [
            | none ↦ before [] (write_response [] (some auth_failed)) (ended_at s)
            | some pw ↦
                if text_eq pw password
                then before [] (write_response [] none) (commands lib j fmt s rs)
                else before [] (write_response [] (some auth_failed)) (ended_at s)
          ])
      first none = failed
      first (some pw) =
          if_both IsFine (text_eq pw password)
            (before-IsFine [] (write_response [] none) _ (commands-IsFine s rs v)) failed

  -- Whatever lines an admin connection brings to a well-formed server, in any number, blank,
  -- malformed or with a wrong password: rconCommand never reads a first word that is not there,
  -- which would bring the server down, and the session table stays well formed.
  pub rcon_session-Inv :
      (password : Text) (s : Server) (rs : List Request)
      → Inv s
      → let o = rcon_session lib j fmt password s rs in (o.panicked ≡ false) × Inv o.server
  rcon_session-Inv password s rs v = let f = session-IsFine password s rs v in (f.calm, f.inv)

cut_prefix-some : (p t u : Text) → cut_prefix p t ≡ some u → t ≡ p ++ u
unfolding cut_prefix
cut_prefix-some [] t u e = cc
cut_prefix-some (c ∷ p) [] u e = absurd (ground arith)
cut_prefix-some (c ∷ p) (d ∷ t) u e = ground (arith, cut_prefix-some p t u)

module _ (lib : Library) (j : Json) (fmt : Formats) (password : Text) (s : Server)
    (r : Request) where
  -- A connection whose first line is not "AUTH " and the password, but for white space around it,
  -- changes nothing, sends nothing to the players and is told one error, whatever it sends then.
  pub rcon_session_locked :
      (rs : List Request)
      → trim_space r.line ≢ auth_prefix ++ password
      → rcon_session lib j fmt password s (r ∷ rs) ≡ record {
        server = s;
        sent = [];
        output = write_response [] (some auth_failed);
        panicked = false;
      }
  unfolding rcon_session before ended_at write_response terminator
  rcon_session_locked rs wrong = elim (Option-cases (cut_prefix auth_prefix (trim_space r.line))) [
    | inl e ↦ rw (e, rcon_session) refl
    | inr (pw, e) ↦ rw (e, other pw e, rcon_session) refl
  ]
    where
      other :
          (pw : Text)
          → cut_prefix auth_prefix (trim_space r.line) ≡ some pw
          → text_eq pw password ≡ false
      other pw e = elim (Bool-cases (text_eq pw password)) [
        | inl same ↦ absurd (
            wrong (
              cut_prefix-some auth_prefix (trim_space r.line) pw e
              ∙ ap (◌++◌ auth_prefix) ((text_eq_iff pw password).0 same)))
        | inr differs ↦ differs
      ]
