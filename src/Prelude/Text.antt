-- ===== src/Prelude/Text.antt =====
-- Python's text operations that the source uses, over the native `String`.
use Prim.Native.Char.{Char, code}
use Prim.Native.String.{String}
use mathlib.Core.Path.{◌≡◌, refl}
use mathlib.Core.Bool.{Bool, true, false, not, ◌&&◌, ◌||◌}
use mathlib.Core.List.{List, [], ◌∷◌}
pub use text.Mathlib.Text.{◌==◌ as str_eq}
pub use text.Mathlib.TextEquality.{eq_iff}
pub use text.Mathlib.TextPositions.{eq_refl}
use mirror_memory.Prelude.Tests.{◌==◌, leb, ltb, if◌then◌else◌}
use Prim.Native.Nat.{ℕ, zero, suc, ◌/◌, ◌%◌}

-- `text.startswith(prefix)`
abbrev pub starts_with : String → String → Bool
starts_with String.[] s = true
starts_with (String.◌∷◌ c p) String.[] = false
starts_with (String.◌∷◌ c p) (String.◌∷◌ d s) = (code c == code d) && starts_with p s

-- `needle in text`
abbrev pub contains : String → String → Bool
contains needle String.[] = starts_with needle ""
contains needle (String.◌∷◌ c s) = starts_with needle (String.◌∷◌ c s) || contains needle s

-- `text in names`, for a set or tuple of names
abbrev pub one_of : String → List String → Bool
one_of s [] = false
one_of s (n ∷ ns) = str_eq s n || one_of s ns

-- `any(marker in text for marker in markers)`
abbrev pub any_marker : List String → String → Bool
any_marker [] text = false
any_marker (m ∷ ms) text = contains m text || any_marker ms text

-- `str.isspace` of one character
abbrev is_space : ℕ → Bool
is_space c =
    (leb 9 c && leb c 13)
    || ((leb 28 c && leb c 32)
        || ((c == 0x85)
            || ((c == 0xa0)
                || ((c == 0x1680)
                    || ((leb 0x2000 c && leb c 0x200a)
                        || ((c == 0x2028)
                            || ((c == 0x2029)
                                || ((c == 0x202f) || ((c == 0x205f) || (c == 0x3000))))))))))

lstrip : String → String
lstrip String.[] = ""
lstrip (String.◌∷◌ c s) = let rest = lstrip s in if is_space (code c) then rest else String.◌∷◌ c s

-- A character that only spaces follow goes if it is a space itself.
push_left : Char → String → String
push_left c String.[] = if is_space (code c) then "" else String.◌∷◌ c ""
push_left c (String.◌∷◌ d s) = String.◌∷◌ c (String.◌∷◌ d s)

rstrip : String → String
unfolding push_left
rstrip String.[] = ""
rstrip (String.◌∷◌ c s) = push_left c (rstrip s)

-- `text.strip()`
unfoldable pub strip : String → String
unfolding lstrip rstrip
strip s = rstrip (lstrip s)

-- `len(text)`
abbrev pub text_length : String → ℕ
text_length String.[] = 0
text_length (String.◌∷◌ c s) = suc (text_length s)

push_first : Char → List String → List String
push_first c [] = String.◌∷◌ c "" ∷ []
push_first c (w ∷ ws) = String.◌∷◌ c w ∷ ws

-- The pieces of a text between the characters that fail a test. Python's splits return the same
-- pieces but for empty ones, which every caller drops.
unfoldable pub pieces : (ℕ → Bool) → String → List String
unfolding push_first
pieces keep String.[] = "" ∷ []
pieces keep (String.◌∷◌ c s) =
    let rest = pieces keep s in if keep (code c) then push_first c rest else "" ∷ rest

-- `re.split(r"[^a-z0-9]+", text)`
unfoldable pub alphanumeric_pieces : String → List String
unfolding pieces
alphanumeric_pieces = pieces (λ c. (leb b'a' c && leb c b'z') || (leb b'0' c && leb c b'9'))

-- `text.split()`
unfoldable pub split_words : String → List String
unfolding pieces
split_words = pieces (λ c. not (is_space c))

strip_test : strip "  a b \t " ≡ "a b"
unfolding strip
strip_test = refl

-- `left + right`
abbrev pub append : String → String → String
append left right = Prim.Native.String.◌++◌ left right

-- `any(c.isspace() for c in text)`
abbrev pub has_space : String → Bool
has_space String.[] = false
has_space (String.◌∷◌ c s) = is_space (code c) || has_space s

-- `text[:n]`
abbrev pub str_take : ℕ → String → String
str_take zero s = ""
str_take (suc n) String.[] = ""
str_take (suc n) (String.◌∷◌ c s) = String.◌∷◌ c (str_take n s)

-- `left <= right`, by code points
abbrev pub str_leb : String → String → Bool
str_leb String.[] s = true
str_leb (String.◌∷◌ c p) String.[] = false
str_leb (String.◌∷◌ c p) (String.◌∷◌ d s) =
    let rest = str_leb p s in ltb (code c) (code d) || ((code c == code d) && rest)

-- `text[n:]`
abbrev pub str_drop : ℕ → String → String
str_drop zero s = s
str_drop (suc n) String.[] = ""
str_drop (suc n) (String.◌∷◌ c s) = str_drop n s

-- At most `fuel` decimal digits of a number.
digits : ℕ → ℕ → String
digits zero n = ""
digits (suc fuel) n =
    let rest = digits fuel (n / 10) in
    append (if ltb n 10 then "" else rest) (str_take 1 (str_drop (n % 10) "0123456789"))

-- `str(number)`: a number has at most one digit more than its value says.
unfoldable pub decimal_text : ℕ → String
unfolding digits
decimal_text n = digits (suc n) n

decimal_text_test : decimal_text 1203 ≡ "1203"
unfolding decimal_text
decimal_text_test = refl
