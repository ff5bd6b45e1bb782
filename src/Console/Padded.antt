-- ===== src/Console/Padded.antt =====
-- TrimSpace in rconSession of internal/server/rcon.go against a password that ends in a blank.
use mathlib.Core.List.{append_assoc}
use rbr_mp_server.Common.{ℕ, ◌≡◌, refl, sym, ap, ◌∙◌, ◌≢◌, List, [], ◌∷◌, ◌++◌, some, false, arith}
use rbr_mp_server.Common.Text.{Text}
use rbr_mp_server.Server.Types.{Server}
use rbr_mp_server.Server.Bans.{Json}
use rbr_mp_server.Server.Admin.{Library}
use rbr_mp_server.Console.Words.{space_at, trim_left, unless_blank, trim_right, trim_space}
use rbr_mp_server.Console.Response.{write_response}
use rbr_mp_server.Console.Listing.{Formats}
use rbr_mp_server.Console.Command.{Request}
use rbr_mp_server.Console.Session.{auth_prefix, auth_failed, rcon_session}
use rbr_mp_server.Console.Safe.{rcon_session_locked}

space_at-blank : (cs : Text) → space_at (b' ' ∷ cs) ≡ 1
unfolding space_at
space_at-blank [] = refl
space_at-blank (c ∷ []) = refl
space_at-blank (c ∷ d ∷ cs) = refl

trim_left-blank : (cs : Text) → trim_left 0 (b' ' ∷ cs) ≡ trim_left 0 cs
unfolding trim_left
trim_left-blank cs = rw (space_at-blank cs) refl

trim_right-empty : (cs : Text) → trim_right cs ≡ [] → trim_left 0 cs ≡ []
unfolding trim_right
trim_right-empty [] e = unfold trim_left in refl
trim_right-empty (c ∷ cs) e = go (trim_left 0 (c ∷ cs)) e
  where
    go : (u : Text) → unless_blank u c (trim_right cs) ≡ [] → u ≡ []
    go [] e = refl
    go (d ∷ ds) e = absurd (unfold unless_blank in ground arith)

head_same : {x y : ℕ} {xs ys : List ℕ} → x ∷ xs ≡ y ∷ ys → x ≡ y
head_same e = cc

tail_same : {x y : ℕ} {xs ys : List ℕ} → x ∷ xs ≡ y ∷ ys → xs ≡ ys
tail_same e = cc

blank_end : (c : ℕ) (cs : Text) → c ≡ b' ' → trim_right cs ≡ [] → trim_left 0 (c ∷ cs) ≡ []
blank_end c cs same empty =
    ap (λ x. trim_left 0 (x ∷ cs)) same ∙ trim_left-blank cs ∙ trim_right-empty cs empty

trim_right_cons-last :
    (c : ℕ) (cs : Text)
    → ((v : Text) → trim_right cs ≢ v ++ (b' ' ∷ []))
    → (w v : Text) → trim_left 0 (c ∷ cs) ≡ w
    → unless_blank w c (trim_right cs) ≢ v ++ (b' ' ∷ [])
unfolding unless_blank
trim_right_cons-last c cs ih [] [] q e = ground arith
trim_right_cons-last c cs ih [] (x ∷ v) q e = ground arith
trim_right_cons-last c cs ih (d ∷ ds) [] q e =
    let both = sym q ∙ blank_end c cs (head_same e) (tail_same e) in ground arith
trim_right_cons-last c cs ih (d ∷ ds) (x ∷ v) q e = ih v (tail_same e)

-- What TrimSpace leaves does not end in a blank.
trim_right-last : (t u : Text) → trim_right t ≢ u ++ (b' ' ∷ [])
unfolding trim_right
trim_right-last [] [] e = ground arith
trim_right-last [] (x ∷ u) e = ground arith
trim_right-last (c ∷ cs) u e =
    trim_right_cons-last c cs (trim_right-last cs) (trim_left 0 (c ∷ cs)) u refl e

-- Nobody can log in where the password ends in a blank: the line is trimmed before it is compared,
-- so that every connection, whatever its first line is, is refused and changes nothing.
pub padded_password :
    (lib : Library) (j : Json) (fmt : Formats) (password : Text) (s : Server) (r : Request)
    (rs : List Request)
    → rcon_session lib j fmt (password ++ (b' ' ∷ [])) s (r ∷ rs) ≡ record {
      server = s;
      sent = [];
      output = write_response [] (some auth_failed);
      panicked = false;
    }
padded_password lib j fmt password s r rs =
    rcon_session_locked lib j fmt (password ++ (b' ' ∷ [])) s r rs (λ e.
      trim_right-last (trim_left 0 r.line) (auth_prefix ++ password)
        (unfold trim_space in e ∙ sym (append_assoc auth_prefix password (b' ' ∷ []))))
