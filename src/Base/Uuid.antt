-- ===== src/Base/Uuid.antt =====
-- `uuid.UUID(text)`: the integer that it holds, or a `ValueError`. Digits beyond ASCII, which
-- Python's `int` would also read, are refused here.
use Prim.Native.Nat.{ℕ, zero, suc, ◌+◌, ◌-◌, ◌*◌, ◌/◌, ◌%◌}
use Prim.Native.Char.{code}
use Prim.Native.String.{String, [], ◌∷◌, ◌++◌ as ◌<>◌}
use mathlib.Core.Bool.{Bool, true, false, ◌&&◌, ◌||◌}
use mathlib.Core.Option.{Option, none, some}
use secure_litellm_on_azure.Base.Tests.{within, ◌==◌, if◌then◌else◌}
use secure_litellm_on_azure.Base.Text.{
  starts, drop_text, take_text, character, text_length, replace, is_digit, is_hex, is_space,
  strip_if,
}

hex_value : ℕ → ℕ
hex_value c =
    if is_digit c then c - b'0' else if within b'a' b'f' c then c - b'a' + 10 else c - b'A' + 10

-- The digits of `int(s, 16)`; the flag says whether a digit came last.
hex_digits : ℕ → Bool → String → Option ℕ
unfolding hex_value
hex_digits n after [] = if after then some n else none
hex_digits n after (c ∷ s) =
    let digit = hex_digits (n * 16 + hex_value (code c)) true s in
    let skip = hex_digits n false s in
    if is_hex (code c) || within b'A' b'F' (code c)
    then digit
    else if (code c == b'_') && after
    then skip
    else none

drop_if_starts : String → String → String
drop_if_starts p s = if starts s p then drop_text (text_length p) s else s

prefixed : String → Bool
prefixed s = starts s "0x" || starts s "0X"

-- `int(s, 16)` on a text without `-`
unfoldable pub int_16 : String → Option ℕ
unfolding hex_digits drop_if_starts prefixed
int_16 s =
    let t = drop_if_starts "+" (strip_if is_space s) in
    let u = if prefixed t then drop_if_starts "_" (drop_text 2 t) else t in hex_digits 0 false u

is_brace : ℕ → Bool
is_brace c = (c == b'{') || (c == b'}')

unfoldable pub uuid : String → Option ℕ
unfolding int_16 replace is_brace
uuid s =
    let bare = replace (strip_if is_brace (replace (replace s "urn:" "") "uuid:" "")) "-" "" in
    if text_length bare == 32 then int_16 bare else none

-- `format(n, "x")`, filled up with zeros to the width
unfoldable pub hex_padded : ℕ → ℕ → String
hex_padded zero n = ""
hex_padded (suc width) n = hex_padded width (n / 16) <> character (n % 16) "0123456789abcdef"

-- `str(UUID(int=n))`
unfoldable pub uuid_text : ℕ → String
unfolding hex_padded
uuid_text n =
    let h = hex_padded 32 n in
    take_text 8 h
    <> "-"
    <> take_text 4 (drop_text 8 h)
    <> "-"
    <> take_text 4 (drop_text 12 h)
    <> "-"
    <> take_text 4 (drop_text 16 h)
    <> "-"
    <> drop_text 20 h
