-- ===== src/Common/Text.antt =====
-- Python's text methods that the source calls, over the code points of a text.
use Prim.Native.Nat.{ℕ, zero, suc, ◌-◌}
use Prim.Native.Char.{Char, code}
use Prim.Native.String.{String, [], ◌∷◌}
use mathlib.Core.Path.{◌≡◌, refl}
use mathlib.Core.Bool.{Bool, true, ◌&&◌, ◌||◌}
use text.Mathlib.Text.{◌==◌}
use package.win_os_layer.Common.Tests.{leb, nat_eq, if◌then◌else◌}

-- `ch.isspace()`: the white space that `str.strip` takes off.
pub is_space : ℕ → Bool
is_space c =
    leb 9 c && leb c 13
    || leb 28 c && leb c 32
    || nat_eq c 0x85
    || nat_eq c 0xa0
    || nat_eq c 0x1680
    || leb 0x2000 c && leb c 0x200a
    || nat_eq c 0x2028
    || nat_eq c 0x2029
    || nat_eq c 0x202f
    || nat_eq c 0x205f
    || nat_eq c 0x3000

-- s.lstrip()
lstrip : String → String
lstrip [] = ""
lstrip (c ∷ s) = let rest = lstrip s in if is_space (code c) then rest else String.◌∷◌ c s

-- s.rstrip()
rstrip : String → String
rstrip [] = ""
rstrip (c ∷ s) =
    let rest = rstrip s in if is_space (code c) && rest == "" then "" else String.◌∷◌ c rest

-- s.strip()
unfoldable pub strip : String → String
unfolding lstrip rstrip is_space
strip s = rstrip (lstrip s)

-- len(s)
abbrev pub text_length : String → ℕ
text_length [] = 0
text_length (c ∷ s) = suc (text_length s)

-- s[:n]
abbrev pub text_take : ℕ → String → String
text_take zero s = ""
text_take (suc n) [] = ""
text_take (suc n) (c ∷ s) = String.◌∷◌ c (text_take n s)

-- The character of a text at a position, or the one given.
abbrev char_at : ℕ → String → Char → Char
char_at n [] other = other
char_at zero (c ∷ s) other = c
char_at (suc n) (c ∷ s) other = char_at n s other

-- s.upper() of ASCII letters; every other character stays.
unfoldable pub upper : String → String
upper [] = ""
upper (c ∷ s) =
    let rest = upper s in
    let n = code c in
    String.◌∷◌
      (if leb 97 n && leb n 122 then char_at (n - 97) "ABCDEFGHIJKLMNOPQRSTUVWXYZ" c else c) rest

-- s.lower() of ASCII letters
unfoldable pub lower : String → String
lower [] = ""
lower (c ∷ s) =
    let rest = lower s in
    let n = code c in
    String.◌∷◌ (if leb 65 n && leb n 90 then char_at (n - 65) "abcdefghijklmnopqrstuvwxyz" c else c)
      rest

-- s.replace("-", "_")
unfoldable pub underscored : String → String
underscored [] = ""
underscored (c ∷ s) =
    let rest = underscored s in
    String.◌∷◌ (if nat_eq (code c) b'-' then char_at 0 "_" c else c) rest

upper_ascii : upper "Get-1" ≡ "GET-1"
unfolding upper
upper_ascii = refl

-- s.isascii()
abbrev pub is_ascii : String → Bool
is_ascii [] = true
is_ascii (c ∷ s) = leb (code c) 127 && is_ascii s
