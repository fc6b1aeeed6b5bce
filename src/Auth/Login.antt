-- ===== src/Auth/Login.antt =====
-- packages/auth/src/state.rs: what each login answers, and what it leaves.
use tor_socks.Base.{◌≡◌, ◌≢◌, ◌↔◌, inl, inr, true, false, Option, some, arith, Option-cases}
use tor_socks.OrdMap.{key_eq_iff}
use tor_socks.OrdMap.Text.{Text, text_ord}
use tor_socks.Auth.Registry.{User, UsersConfig, find, find_user, FileState}
use tor_socks.Auth.Argon.{Primitives, PrimitiveLaws, verify_hash, init_sentinel}
use tor_socks.Auth.State.{AuthState, Outside, verify_with_cache, verify, refuse}
use tor_socks.Auth.Sound.{IsSound, verify_with_cache_lem}

module _ {Phc : Type 0} (prim : Primitives Phc) (parse : Text → Option UsersConfig)
    (print : UsersConfig → Option Text) where
  -- A login to an account that is unknown or disabled is refused and changes nothing.
  pub verify-refuses :
      (s : AuthState) (file : FileState) (out : Outside) (name p : Text)
      → ((u : User) → find s.users name ≡ some u → u.is_enabled ≡ false)
      → verify prim parse print s file out name p ≡ refuse s file
  unfolding verify find
  verify-refuses s file out name p h = elim (Option-cases (find_user s.users.users name)) [
    | inl unknown ↦ ground (arith, unknown)
    | inr (u, found) ↦ ground (arith, found, h u)
  ]

  -- Everything a login against a stored hash answers.
  settled_reply :
      (s : AuthState) (file : FileState) (out : Outside) (name p : Text) (u : User)
      → find s.users name ≡ some u
      → u.is_enabled ≡ true
      → u.hash ≢ init_sentinel
      → verify prim parse print s file out name p ≡ record {
        accepted = (verify_with_cache prim s name p u.hash).0;
        state = (verify_with_cache prim s name p u.hash).1;
        file = file;
      }
  unfolding verify find
  settled_reply s file out name p u found on real =
      ground (arith, found, key_eq_iff u.hash init_sentinel)

  -- With a sound cache and primitives that behave, a login to a known and enabled account that has
  -- a password is accepted iff the stored hash verifies the password.
  pub verify-settled :
      (s : AuthState) (file : FileState) (out : Outside) (name p : Text) (u : User)
      → PrimitiveLaws prim
      → IsSound prim s
      → find s.users name ≡ some u
      → u.is_enabled ≡ true
      → u.hash ≢ init_sentinel
      → ((verify prim parse print s file out name p).accepted ≡ true)
        ↔ (verify_hash prim u.hash p ≡ some true)
  verify-settled s file out name p u laws sound found on real =
      rw (settled_reply s file out name p u found on real)
        (verify_with_cache_lem prim s name p u.hash laws sound)
