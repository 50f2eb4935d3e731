-- ===== src/Application/Lock.antt =====
-- src/application/lock.rs: at most one lease for an application and environment. The set of active keys
-- is the list of its elements; a lease is its key, and dropping it removes the key.
use deploy_mcp.Prelude.{
  String, ◌≡◌, refl, Bool, true, false, ◌&&◌, Option, none, some, List, [], ◌∷◌, any, str_eq,
  if◌then◌else◌, eq_iff, arith,
}

abbrev pub Key : Type 0
Key = String × String

unfoldable pub key_eq : Key → Key → Bool
key_eq (a, b) (c, d) = str_eq a c && str_eq b d

unfoldable pub is_active : Key → List Key → Bool
unfolding key_eq
is_active key active = any (key_eq key) active

-- `try_acquire`: the lease and the new set, or nothing where the key is already active.
unfoldable pub try_acquire : Key → List Key → Option (List Key)
unfolding is_active
try_acquire key active = if is_active key active then none else some (key ∷ active)

-- `Drop` of a lease.
unfoldable pub release : Key → List Key → List Key
unfolding key_eq
release key [] = []
release key (k ∷ ks) = let rest = release key ks in if key_eq key k then rest else k ∷ rest

pub key_eq_self : (k : Key) → key_eq k k ≡ true
unfolding key_eq
key_eq_self (a, b) = ground (arith, eq_iff a a, eq_iff b b)

release_inactive :
    (key : Key) (active : List Key) → is_active key active ≡ false → release key active ≡ active
unfolding is_active release
release_inactive key [] h = refl
release_inactive key (k ∷ ks) h = ground (arith, release_inactive key ks)

-- While a lease is held the same key is refused; once it is dropped the set is as it was before.
pub try_acquire-release :
    (key : Key) (active held : List Key)
    → try_acquire key active ≡ some held
    → (try_acquire key held ≡ none) × (release key held ≡ active)
unfolding try_acquire is_active release
try_acquire-release key active held h = ground (arith, key_eq_self key, release_inactive key active)

-- A lease for one key does not stand in the way of another key.
pub try_acquire_other :
    (key other : Key) (active held : List Key)
    → try_acquire key active ≡ some held
    → key_eq other key ≡ false
    → is_active other held ≡ is_active other active
unfolding try_acquire is_active
try_acquire_other key other active held h ne = ground arith
