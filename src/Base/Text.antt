-- ===== src/Base/Text.antt =====
-- Python's operations on `str`, character by character. `String` is a list of characters.
use mathlib.Core.List.{List}
use Prim.Native.Nat.{ℕ, zero, suc, ◌+◌, ◌-◌, compare, Ordering}
use Prim.Native.Char.{code}
use Prim.Native.String.{String, [], ◌∷◌, ◌++◌ as ◌<>◌}
use mathlib.Core.Bool.{Bool, true, false, ◌&&◌, ◌||◌}
use secure_litellm_on_azure.Base.Tests.{◌==◌, within, if◌then◌else◌}

-- `len(s)`
abbrev pub text_length : String → ℕ
text_length [] = 0
text_length (c ∷ s) = suc (text_length s)

-- `s.startswith(p)`
abbrev pub starts : String → String → Bool
starts s [] = true
starts [] (d ∷ p) = false
starts (c ∷ s) (d ∷ p) = (code c == code d) && starts s p

-- `s[n:]`
abbrev pub drop_text : ℕ → String → String
drop_text zero s = s
drop_text (suc n) [] = []
drop_text (suc n) (c ∷ s) = drop_text n s

-- `s[:n]`
abbrev pub take_text : ℕ → String → String
take_text zero s = []
take_text (suc n) [] = []
take_text (suc n) (c ∷ s) = c ∷ take_text n s

-- `all(p(c) for c in s)`
abbrev pub every : (ℕ → Bool) → String → Bool
every p [] = true
every p (c ∷ s) = p (code c) && every p s

-- `p in s`
abbrev pub contains : String → String → Bool
contains [] p = starts [] p
contains (c ∷ s) p = starts (c ∷ s) p || contains s p

-- `s.endswith(p)`
abbrev pub ends : String → String → Bool
ends [] p = starts [] p
ends (c ∷ s) p = (starts (c ∷ s) p && (text_length (c ∷ s) == text_length p)) || ends s p

-- `s.replace(p, r)` for a nonempty `p`; the number says how many characters of a hit are left.
pub replace_from : String → String → ℕ → String → String
replace_from p r n [] = []
replace_from p r (suc n) (c ∷ s) = replace_from p r n s
replace_from p r zero (c ∷ s) =
    let hit = r <> replace_from p r (text_length p - 1) s in
    let miss = c ∷ replace_from p r zero s in if starts (c ∷ s) p then hit else miss

unfoldable pub replace : String → String → String → String
unfolding replace_from
replace s p r = replace_from p r zero s

-- Character classes.
abbrev pub is_digit : ℕ → Bool
is_digit c = within b'0' b'9' c

abbrev pub is_hex : ℕ → Bool
is_hex c = is_digit c || within b'a' b'f' c

abbrev pub is_upper : ℕ → Bool
is_upper c = within b'A' b'Z' c

abbrev pub is_lower : ℕ → Bool
is_lower c = within b'a' b'z' c

abbrev pub is_alnum : ℕ → Bool
is_alnum c = is_digit c || is_upper c || is_lower c

-- `re.fullmatch(r"[0-9a-f]{n}", s)`
abbrev pub hex_text : ℕ → String → Bool
hex_text n s = (text_length s == n) && every is_hex s

-- `s < t`, by code points
abbrev pub text_lt : String → String → Bool
text_lt s [] = false
text_lt [] (d ∷ t) = true
text_lt (c ∷ s) (d ∷ t) = elim (compare (code c) (code d)) [
  | Ordering.lt ↦ true
  | Ordering.eq ↦ text_lt s t
  | Ordering.gt ↦ false
]

-- `c.isspace()`
abbrev pub is_space : ℕ → Bool
is_space c =
    within 9 13 c
    || within 28 32 c
    || (c == 133)
    || (c == 160)
    || (c == 5760)
    || within 8192 8202 c
    || within 8232 8233 c
    || (c == 8239)
    || (c == 8287)
    || (c == 12288)

abbrev pub strip_left : (ℕ → Bool) → String → String
strip_left p [] = []
strip_left p (c ∷ s) = let rest = strip_left p s in if p (code c) then rest else c ∷ s

abbrev pub add_unless : Bool → String → String → String
add_unless true [] c = []
add_unless _ rest c = c <> rest

abbrev pub strip_right : (ℕ → Bool) → String → String
strip_right p [] = []
strip_right p (c ∷ s) = add_unless (p (code c)) (strip_right p s) (c ∷ [])

-- `s.strip()`, for the characters that pass the test
abbrev pub strip_if : (ℕ → Bool) → String → String
strip_if p s = strip_right p (strip_left p s)

-- `c.lower()` on ASCII letters
abbrev pub lower_code : ℕ → ℕ
lower_code c = if is_upper c then c + 32 else c

-- The one-character texts of a text: `list(s)`.
abbrev pub characters : String → List String
characters [] = List.[]
characters (c ∷ s) = List.◌∷◌ (c ∷ []) (characters s)

-- `c.upper()` on ASCII letters
abbrev pub upper_code : ℕ → ℕ
upper_code c = if is_lower c then c - 32 else c

-- `s.upper().startswith(p)`
abbrev pub starts_upper : String → String → Bool
starts_upper s [] = true
starts_upper [] (d ∷ p) = false
starts_upper (c ∷ s) (d ∷ p) = (upper_code (code c) == code d) && starts_upper s p

-- `p in s.upper()`, for a `p` that no letter outside ASCII has in its upper case
abbrev pub contains_upper : String → String → Bool
contains_upper [] p = starts_upper [] p
contains_upper (c ∷ s) p = starts_upper (c ∷ s) p || contains_upper s p

-- `s[n]`, as a text
abbrev pub character : ℕ → String → String
character n s = take_text 1 (drop_text n s)

-- `s.lower()` on ASCII letters
unfoldable pub lower : String → String
lower [] = []
lower (c ∷ s) =
    let letter = character (code c - b'A') "abcdefghijklmnopqrstuvwxyz" in
    (if is_upper (code c) then letter else c ∷ []) <> lower s
