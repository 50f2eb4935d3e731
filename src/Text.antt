-- ===== src/Text.antt =====
-- The operations of Rust's `str` and `char` that the program calls on identifiers and checksums.
-- A `String` is its list of characters; `len` is the length in bytes of its UTF-8.
pub mod Laws
use Prim.Native.Nat.{◌%◌, compare, Ordering}
use Prim.Native.Char.{Char, char, code, IsScalar}
use Prim.Native.String.{[], ◌∷◌}
use deploy_mcp.Prelude.{
  ℕ, ◌+◌, ◌<◌, String, ◌≡◌, refl, Bool, true, false, ◌&&◌, ◌||◌, Option, none, some, ltb, leb, ◌==◌,
  if◌then◌else◌, arith,
}

-- `char::is_whitespace`: the code points with the property White_Space.
unfoldable pub is_whitespace : ℕ → Bool
is_whitespace n =
    (leb 9 n && leb n 13)
    || n == 32
    || n == 0x85
    || n == 0xa0
    || n == 0x1680
    || (leb 0x2000 n && leb n 0x200a)
    || n == 0x2028
    || n == 0x2029
    || n == 0x202f
    || n == 0x205f
    || n == 0x3000

-- `char::is_control`: the general category Cc.
unfoldable pub is_control : ℕ → Bool
is_control n = ltb n 32 || (leb 127 n && leb n 159)

-- `u8::is_ascii_hexdigit`. Every byte of a character outside ASCII is at least 128, so on a whole
-- text the test on bytes and the test on characters agree.
unfoldable pub is_ascii_hexdigit : ℕ → Bool
is_ascii_hexdigit n =
    (leb b'0' n && leb n b'9') || (leb b'a' n && leb n b'f') || (leb b'A' n && leb n b'F')

is_upper : ℕ → Bool
is_upper n = leb b'A' n && leb n b'Z'

pub IsScalar-ascii : (n : ℕ) → n < 128 → IsScalar n
IsScalar-ascii n h = let e : compare n 55296 ≡ Ordering.lt = ground arith in rw (e, IsScalar) tt

-- `u8::to_ascii_lowercase` on the characters of a text: the capital letters move by 32, below 128.
ascii : ℕ → Char
ascii n = char (n % 128) (IsScalar-ascii (n % 128) (omega arith))

unfoldable pub to_lower : Char → Char
unfolding is_upper ascii
to_lower c = if is_upper (code c) then ascii (code c + 32) else c

unfoldable pub to_ascii_lowercase : String → String
unfolding to_lower
to_ascii_lowercase [] = []
to_ascii_lowercase (c ∷ s) = to_lower c ∷ to_ascii_lowercase s

-- `chars().all(p)`, `bytes().all(p)` and `chars().any(p)`, over the code points.
unfoldable pub all_chars : (ℕ → Bool) → String → Bool
all_chars p [] = true
all_chars p (c ∷ s) = p (code c) && all_chars p s

unfoldable pub any_char : (ℕ → Bool) → String → Bool
any_char p [] = false
any_char p (c ∷ s) = p (code c) || any_char p s

empty_text : String → Bool
empty_text [] = true
empty_text (c ∷ s) = false

trim_start : String → String
trim_start [] = []
trim_start (c ∷ s) = let rest = trim_start s in if is_whitespace (code c) then rest else c ∷ s

trim_end : String → String
unfolding empty_text
trim_end [] = []
trim_end (c ∷ s) =
    let rest = trim_end s in if is_whitespace (code c) && empty_text rest then [] else c ∷ rest

-- `str::trim`.
unfoldable pub trim : String → String
unfolding trim_start trim_end
trim s = trim_end (trim_start s)

-- `value.trim().is_empty()`.
unfoldable pub is_blank : String → Bool
unfolding trim empty_text
is_blank s = empty_text (trim s)

trim_test : (trim "  a b\n" ≡ "a b") × (is_blank " \t" ≡ true) × (is_blank " x" ≡ false)
unfolding trim is_blank is_whitespace
trim_test = (refl, refl, refl)

lower_test : to_ascii_lowercase "09aF-Z" ≡ "09af-z"
unfolding to_ascii_lowercase
lower_test = refl

-- `str::strip_prefix`.
strip_chars : String → String → Option String
strip_chars [] s = some s
strip_chars (p ∷ ps) [] = none
strip_chars (p ∷ ps) (c ∷ s) =
    let rest = strip_chars ps s in if code p == code c then rest else none

unfoldable pub strip_prefix : String → String → Option String
unfolding strip_chars
strip_prefix prefix s = strip_chars prefix s

-- `length` of SQLite on a text: its characters.
unfoldable pub char_count : String → ℕ
char_count [] = 0
char_count (c ∷ s) = let rest = char_count s in rest + 1
