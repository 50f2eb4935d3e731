-- ===== src/Text/Laws.antt =====
-- Laws of the text operations: lowering the case of a checksum keeps its length and its digits.
use Prim.Native.Char.{Char, code, len_utf8, len_utf8_def}
use Prim.Native.String.{[], ◌∷◌, ◌++◌, len}
use Prim.Native.String.append
use Prim.Native.String.len
use deploy_mcp.Prelude.{◌+◌, String, ◌≡◌, refl, some, arith}
use deploy_mcp.Text.{
  is_ascii_hexdigit, all_chars, to_lower, to_ascii_lowercase, strip_chars, strip_prefix,
}

to_lower-to_lower : (c : Char) → to_lower (to_lower c) ≡ to_lower c
unfolding to_lower
to_lower-to_lower c = ground arith

is_ascii_hexdigit-to_lower :
    (c : Char) → is_ascii_hexdigit (code (to_lower c)) ≡ is_ascii_hexdigit (code c)
unfolding to_lower is_ascii_hexdigit
is_ascii_hexdigit-to_lower c = ground arith

len_utf8-to_lower : (c : Char) → len_utf8 (to_lower c) ≡ len_utf8 c
unfolding to_lower
len_utf8-to_lower c =
    let d : len_utf8 (to_lower c) ≡ _ = λ i. len_utf8_def (to_lower c) i in
    let e : len_utf8 c ≡ _ = λ i. len_utf8_def c i in rw (d, e) (ground arith)

len-cons : (c : Char) (s : String) → len (c ∷ s) ≡ len_utf8 c + len s
len-cons c s = λ i. len.cons c s i

pub lower-lower : (s : String) → to_ascii_lowercase (to_ascii_lowercase s) ≡ to_ascii_lowercase s
unfolding to_ascii_lowercase
lower-lower [] = refl
lower-lower (c ∷ s) = cc (lower-lower s, to_lower-to_lower c)

pub hexdigits-lower :
    (s : String)
    → all_chars is_ascii_hexdigit (to_ascii_lowercase s) ≡ all_chars is_ascii_hexdigit s
unfolding to_ascii_lowercase all_chars
hexdigits-lower [] = refl
hexdigits-lower (c ∷ s) = rw (hexdigits-lower s, is_ascii_hexdigit-to_lower c)

pub len-lower : (s : String) → len (to_ascii_lowercase s) ≡ len s
unfolding to_ascii_lowercase
len-lower [] = refl
len-lower (c ∷ s) = omega (
  arith,
  len-cons c s,
  len-cons (to_lower c) (to_ascii_lowercase s),
  len-lower s,
  len_utf8-to_lower c,
)

append-cons : (c : Char) (s t : String) → (c ∷ s) ++ t ≡ c ∷ (s ++ t)
append-cons c s t = λ i. append.cons c s t i

append-nil : (t : String) → [] ++ t ≡ t
append-nil t = λ i. append.nil t i

strip_chars-append : (p s : String) → strip_chars p (p ++ s) ≡ some s
unfolding strip_chars
strip_chars-append [] s = rw append-nil
strip_chars-append (c ∷ p) s = rw (append-cons c p s) (ground (arith, strip_chars-append p s))

pub strip_prefix-append : (p s : String) → strip_prefix p (p ++ s) ≡ some s
unfolding strip_prefix
strip_prefix-append p s = strip_chars-append p s
