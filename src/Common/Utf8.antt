-- ===== src/Common/Utf8.antt =====
-- utf8.ValidString of Go's standard library: what encoding/json keeps of a string as it is.
use rbr_mp_server.Common.{
  ℕ, List, [], ◌∷◌, Option, none, some, Bool, true, false, ◌&&◌, if◌then◌else◌, leb, ◌≡◌,
}
use rbr_mp_server.Common.Text.{Text}

abbrev continuation : ℕ × ℕ
continuation = (0x80, 0xBF)

-- The ranges of the bytes that must follow a first byte; `none` for one that starts no character.
unfoldable pub followers : ℕ → Option (List (ℕ × ℕ))
followers b =
    if leb b 0x7F
    then some []
    else if leb 0xC2 b && leb b 0xDF
    then some (continuation ∷ [])
    else if leb b 0xE0 && leb 0xE0 b
    then some ((0xA0, 0xBF) ∷ continuation ∷ [])
    else if leb b 0xED && leb 0xED b
    then some ((0x80, 0x9F) ∷ continuation ∷ [])
    else if leb 0xE1 b && leb b 0xEF
    then some (continuation ∷ continuation ∷ [])
    else if leb b 0xF0 && leb 0xF0 b
    then some ((0x90, 0xBF) ∷ continuation ∷ continuation ∷ [])
    else if leb 0xF1 b && leb b 0xF3
    then some (continuation ∷ continuation ∷ continuation ∷ [])
    else if leb b 0xF4 && leb 0xF4 b
    then some ((0x80, 0x8F) ∷ continuation ∷ continuation ∷ [])
    else none

-- Inside a character that still needs bytes in the given ranges.
unfoldable pub valid_from : List (ℕ × ℕ) → Text → Bool
unfolding followers
valid_from [] [] = true
valid_from (r ∷ rs) [] = false
valid_from ((low, high) ∷ rs) (b ∷ bs) =
    let rest = valid_from rs bs in if leb low b && leb b high then rest else false
valid_from [] (b ∷ bs) = elim (followers b) [ none ↦ false | some rs ↦ valid_from rs bs ]

abbrev pub IsUtf8 : Text → Type 0
IsUtf8 t = valid_from [] t ≡ true
