-- ===== src/Domain/Rollback/Fingerprint.antt =====
-- The bytes that a contract's fingerprint is made of tell its fields apart.
use deploy_mcp.Prelude.{
  ℕ, ◌-◌, ◌^◌, ◌<◌, min, String, ◌≡◌, refl, sym, ◌∙◌, List, [], ◌∷◌, ◌++◌, arith, length,
}
use Prim.Native.String.{len}
use deploy_mcp.Domain.Rollback.{Sha256, be_bytes, hash_field, hash_fields}

be_bytes-injective : (n m : ℕ) → n < 2 ^ 64 → m < 2 ^ 64 → be_bytes n ≡ be_bytes m → n ≡ m
unfolding be_bytes
be_bytes-injective n m hn hm h = ground arith

-- Two lists of one length that begin equal lists.
append-split :
    (xs ys us vs : List ℕ) → length xs ≡ length ys → xs ++ us ≡ ys ++ vs → (xs ≡ ys) × (us ≡ vs)
append-split [] [] us vs l h = (refl, h)
append-split [] (y ∷ ys) us vs l h = cc
append-split (x ∷ xs) [] us vs l h = cc
append-split (x ∷ xs) (y ∷ ys) us vs l h = ground (arith, append-split xs ys us vs)

-- What `str::as_bytes` is known for: as many bytes as the length, and different bytes for different texts.
pub record IsUtf8 (sha256 : Sha256) : Type 0 where
  pub length-utf8 : (s : String) → length (sha256.utf8 s) ≡ len s
  pub utf8-injective : (s t : String) → sha256.utf8 s ≡ sha256.utf8 t → s ≡ t

abbrev pub Fits : String → Type 0
Fits s = len s < 2 ^ 64

fitting :
    (s t : String)
    → Fits s
    → Fits t
    → min (len s) (2 ^ 64 - 1) ≡ min (len t) (2 ^ 64 - 1)
    → len s ≡ len t
fitting s t fs ft h = omega arith

module _ (sha256 : Sha256) (utf8 : IsUtf8 sha256) where
  -- One field, and whatever follows it.
  hash_field-split :
      (s t : String) (us vs : List ℕ)
      → Fits s
      → Fits t
      → hash_field sha256 s ++ us ≡ hash_field sha256 t ++ vs
      → (s ≡ t) × (us ≡ vs)
  unfolding hash_field be_bytes
  hash_field-split s t us vs fs ft h =
      let (same_length, rest) =
        append-split (be_bytes (min (len s) (2 ^ 64 - 1))) (be_bytes (min (len t) (2 ^ 64 - 1)))
          (sha256.utf8 s ++ us) (sha256.utf8 t ++ vs) refl h in
      let lengths : len s ≡ len t =
        fitting s t fs ft (be_bytes-injective _ _ (omega arith) (omega arith) same_length) in
      let (same_bytes, same_rest) =
        append-split (sha256.utf8 s) (sha256.utf8 t) us vs
          (utf8.length-utf8 s ∙ lengths ∙ sym (utf8.length-utf8 t)) rest in
      (utf8.utf8-injective s t same_bytes, same_rest)

  abbrev pub AllFit : List String → Type 0
  AllFit [] = Unit {0}
  AllFit (s ∷ ss) = Fits s × AllFit ss

  -- Two lists of as many fields, each of a length that a `u64` holds, that feed the same bytes to the hash
  -- are the same list.
  pub hash_fields-injective :
      (ss ts : List String)
      → length ss ≡ length ts
      → AllFit ss
      → AllFit ts
      → hash_fields sha256 ss ≡ hash_fields sha256 ts
      → ss ≡ ts
  unfolding hash_fields
  hash_fields-injective [] [] l fs ft h = refl
  hash_fields-injective [] (t ∷ ts) l fs ft h = cc
  hash_fields-injective (s ∷ ss) [] l fs ft h = cc
  hash_fields-injective (s ∷ ss) (t ∷ ts) l (f, fs) (g, ft) h =
      let (first, rest) =
        hash_field-split s t (hash_fields sha256 ss) (hash_fields sha256 ts) f g h in
      cc (first, hash_fields-injective ss ts (omega (arith, l)) fs ft rest)
