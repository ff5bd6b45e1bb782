-- ===== src/Console/Words.antt =====
-- strings.TrimSpace and strings.Fields, as internal/server/rcon.go uses them. A white-space
-- character is recognised by its UTF-8 bytes; none of their first bytes stands inside the encoding of
-- another character.
use rbr_mp_server.Common.{
  ℕ, zero, suc, ◌-◌, List, [], ◌∷◌, ◌++◌, Bool, ◌&&◌, ◌||◌, if◌then◌else◌, leb, ◌==◌,
}
use rbr_mp_server.Common.Text.{Text}

-- The white space of one, two and three bytes.
abbrev pub space_1 : ℕ → Bool
space_1 a = (leb 9 a && leb a 13) || (a == 32)

abbrev pub space_2 : ℕ → ℕ → Bool
space_2 a b = (a == 0xC2) && ((b == 0x85) || (b == 0xA0))

abbrev pub space_3 : ℕ → ℕ → ℕ → Bool
space_3 a b c =
    ((a == 0xE1) && (b == 0x9A) && (c == 0x80))
    || ((a == 0xE2)
        && (b == 0x80)
        && ((leb 0x80 c && leb c 0x8A) || (c == 0xA8) || (c == 0xA9) || (c == 0xAF)))
    || ((a == 0xE2) && (b == 0x81) && (c == 0x9F))
    || ((a == 0xE3) && (b == 0x80) && (c == 0x80))

-- How many bytes the white-space character at the front has, or 0 if there is none.
unfoldable pub space_at : Text → ℕ
space_at [] = 0
space_at (a ∷ []) = if space_1 a then 1 else 0
space_at (a ∷ b ∷ []) = if space_1 a then 1 else if space_2 a b then 2 else 0
space_at (a ∷ b ∷ c ∷ cs) =
    if space_1 a then 1 else if space_2 a b then 2 else if space_3 a b c then 3 else 0

-- Without the white space in front; the first argument counts the bytes left of a character.
unfoldable pub trim_left : ℕ → Text → Text
trim_left n [] = []
trim_left (suc n) (c ∷ cs) = trim_left n cs
trim_left zero (c ∷ cs) =
    let rest = trim_left (space_at (c ∷ cs) - 1) cs in
    if space_at (c ∷ cs) == 0 then c ∷ cs else rest

-- The byte and the rest, unless the first text is empty.
unfoldable pub unless_blank : Text → ℕ → Text → Text
unless_blank [] c rest = []
unless_blank (d ∷ ds) c rest = c ∷ rest

-- Up to where only white space follows.
unfoldable pub trim_right : Text → Text
trim_right [] = []
trim_right (c ∷ cs) = unless_blank (trim_left 0 (c ∷ cs)) c (trim_right cs)

unfoldable pub trim_space : Text → Text
unfolding trim_left trim_right
trim_space t = trim_right (trim_left 0 t)

-- The word read so far, if there is one, in front of the others.
unfoldable pub flush : Text → List Text → List Text
flush [] words = words
flush (c ∷ cs) words = (c ∷ cs) ∷ words

-- The words of a text, after the word read so far; the number counts the bytes left of a space.
unfoldable pub split : ℕ → Text → Text → List Text
unfolding flush
split n word [] = flush word []
split (suc n) word (c ∷ cs) = split n word cs
split zero word (c ∷ cs) =
    let inside = split 0 (word ++ (c ∷ [])) cs in
    let after = flush word (split (space_at (c ∷ cs) - 1) [] cs) in
    if space_at (c ∷ cs) == 0 then inside else after

unfoldable pub fields : Text → List Text
unfolding split
fields t = split 0 [] t

-- strings.Join(words, " ")
unfoldable pub join_words : List Text → Text
join_words [] = []
join_words (w ∷ []) = w
join_words (w ∷ v ∷ ws) = w ++ (b' ' ∷ join_words (v ∷ ws))
