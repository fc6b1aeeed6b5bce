-- ===== src/Auth/State.antt =====
-- packages/auth/src/state.rs: `AuthState`, its queries, and the login.
use tor_socks.OrdMap.Laws.{filter_option}
use tor_socks.Base.{
  ℕ, Bool, true, false, not, ◌&&◌, Option, none, some, List, [], ◌∷◌, length, if◌then◌else◌,
}
use tor_socks.OrdMap.{key_eq, lookup, insert}
use tor_socks.OrdMap.Laws.{filter_option}
use tor_socks.OrdMap.Text.{Text, text_ord}
use tor_socks.Acl.Rule.{IpAddr}
use tor_socks.Acl.Clients.{client_matches}
use tor_socks.Auth.Registry.{
  User, UsersConfig, find, find_user, set_hash, FileState, Publishing, load, save,
}
use tor_socks.Auth.Argon.{Primitives, compute_hash, verify_hash, hmac, init_sentinel}

pub record CacheEntry : Type 0 where
  pub hash_snapshot : Text
  pub tag : Text

-- `persistent` is whether there is a path to write to.
pub record AuthState : Type 0 where
  pub users : UsersConfig
  pub cache : List (Text × CacheEntry)
  pub server_secret : Text
  pub persistent : Bool

unfoldable pub build_inner : UsersConfig → Bool → Option Text → Option AuthState
build_inner cfg path none = none
build_inner cfg path (some secret) =
    some (record { users = cfg; cache = []; server_secret = secret; persistent = path })

unfoldable pub len : AuthState → ℕ
len s = length s.users.users

unfoldable pub is_empty : AuthState → Bool
is_empty s = elim s.users.users [ [] ↦ true | u ∷ users ↦ false ]

unfoldable pub require_auth : AuthState → Bool
unfolding is_empty
require_auth s = not (is_empty s)

unfoldable pub allowed_onion : AuthState → Text → Bool
unfolding find
allowed_onion s name = elim (find s.users name) [
  | none ↦ false
  | some u ↦ u.is_enabled && u.allowed_onion
]

unfoldable pub client_allowed : AuthState → Text → IpAddr → Bool
unfolding find
client_allowed s name peer = elim (filter_option (λ (u : User). u.is_enabled) (find s.users name)) [
  | none ↦ false
  | some u ↦ elim u.allowed_clients [ none ↦ true | some policy ↦ client_matches policy peer ]
]

-- What one login meets outside: the salt drawn, whether the lock was taken and how far the
-- publishing of a new file comes.
pub record Outside : Type 0 where
  pub salt : Option Text
  pub lock_taken : Bool
  pub published : Publishing

-- The answer of a login, the state and the registry file after it.
pub record Reply : Type 0 where
  pub accepted : Bool
  pub state : AuthState
  pub file : FileState

abbrev pub refuse : AuthState → FileState → Reply
refuse s file = record { accepted = false; state = s; file = file }

abbrev pub remember : AuthState → Text → Text → Text → AuthState
remember s name h tag = record s {
  cache = insert name (record { hash_snapshot = h; tag = tag }) s.cache;
}

module _ {Phc : Type 0} (prim : Primitives Phc) where
  -- The cache holds this name with this hash and this tag.
  unfoldable pub is_cached : AuthState → Text → Text → Text → Bool
  is_cached s name h candidate = elim (lookup name s.cache) [
    | none ↦ false
    | some c ↦ key_eq c.hash_snapshot h && key_eq c.tag candidate
  ]

  unfoldable pub verify_with_cache : AuthState → Text → Text → Text → Bool × AuthState
  unfolding is_cached
  verify_with_cache s name password h =
      let candidate = hmac prim s.server_secret name password in
      if is_cached s name h candidate then (true, s) else elim (verify_hash prim h password) [
        | none ↦ (false, s)
        | some false ↦ (false, s)
        | some true ↦ (true, remember s name h candidate)
      ]

module _ {Phc : Type 0} (prim : Primitives Phc) (parse : Text → Option UsersConfig)
    (print : UsersConfig → Option Text) where
  -- What the transaction starts from: the file when there is a path, else the memory.
  unfoldable pub current_registry : AuthState → FileState → Option UsersConfig
  unfolding load
  current_registry s file = if s.persistent then load parse file else some s.users

  -- Write first, then commit to memory and to the cache.
  unfoldable pub adopt :
      AuthState → FileState → UsersConfig → Text → Text → Text → Publishing → Reply
  unfolding save
  adopt s file current name password new_hash published =
      let next : UsersConfig = record { users = set_hash current.users name new_hash } in
      let tag = hmac prim s.server_secret name password in
      let written : Bool × FileState =
        if s.persistent then save print next published file else (true, file) in
      let (saved, file') = written in
      if saved
      then record {
        accepted = true;
        state = remember (record s { users = next }) name new_hash tag;
        file = file';
      }
      else refuse s file'

  -- The checks on the authoritative registry, then the adoption.
  unfoldable pub settle :
      AuthState → FileState → UsersConfig → Text → Text → Text → Publishing → Reply
  unfolding find find_user
  settle s file current name password new_hash published = elim (find current name) [
    | none ↦ refuse s file
    | some u ↦
        if not u.is_enabled
        then refuse s file
        else if not (key_eq u.hash init_sentinel)
        then (let (ok, s') =
              verify_with_cache prim (record s { users = current }) name password u.hash in
            record { accepted = ok; state = s'; file = file })
        else adopt s file current name password new_hash published
  ]

  unfoldable pub resolve_init : AuthState → FileState → Outside → Text → Text → Reply
  unfolding current_registry
  resolve_init s file out name [] = refuse s file
  resolve_init s file out name (c ∷ password) = elim (compute_hash prim out.salt (c ∷ password)) [
    | none ↦ refuse s file
    | some new_hash ↦
        if s.persistent && not out.lock_taken
        then refuse s file
        else elim (current_registry s file) [
          | none ↦ refuse s file
          | some current ↦ settle s file current name (c ∷ password) new_hash out.published
        ]
  ]

  unfoldable pub verify : AuthState → FileState → Outside → Text → Text → Reply
  unfolding find find_user
  verify s file out name password = elim (find s.users name) [
    | none ↦ refuse s file
    | some u ↦
        if not u.is_enabled
        then refuse s file
        else if key_eq u.hash init_sentinel
        then resolve_init s file out name password
        else (let (ok, s') = verify_with_cache prim s name password u.hash in
            record { accepted = ok; state = s'; file = file })
  ]
