-- ===== src/Auth/Registry.antt =====
-- packages/auth/src/user.rs and users_config.rs: accounts, and the registry file.
use tor_socks.Base.{◌≡◌, Bool, true, false, Option, none, some, List, [], ◌∷◌, arith, if◌then◌else◌}
use tor_socks.OrdMap.{key_eq, key_eq_iff}
use tor_socks.OrdMap.Text.{Text, text_ord}
use tor_socks.Acl.Clients.{AllowedClients}
use tor_socks.Acl.Endpoint.{EndpointOverride}

pub record User : Type 0 where
  pub name : Text
  pub hash : Text
  pub is_enabled : Bool
  pub allowed_onion : Bool
  pub allowed_clients : Option AllowedClients
  pub pre_socks5 : Option EndpointOverride
  pub post_socks5 : Option EndpointOverride

pub record UsersConfig : Type 0 where
  pub users : List User

unfoldable pub find_user : List User → Text → Option User
find_user [] name = none
find_user (u ∷ users) name =
    let rest = find_user users name in if key_eq u.name name then some u else rest

unfoldable pub find : UsersConfig → Text → Option User
unfolding find_user
find cfg name = find_user cfg.users name

-- `find_mut`, with the assignment of the new hash to the user found.
unfoldable pub set_hash : List User → Text → Text → List User
set_hash [] name h = []
set_hash (u ∷ users) name h =
    let rest = set_hash users name h in
    if key_eq u.name name then record u { hash = h } ∷ users else u ∷ rest

-- What a path holds: no file, a file that cannot be read, or a text.
pub data FileState : Type 0 where
  missing : FileState
  unreadable : FileState
  holds : Text → FileState

-- The parser and the printer of the file format are a library's, and parameters.
module _ (parse : Text → Option UsersConfig) where
  unfoldable pub load : FileState → Option UsersConfig
  load missing = some (record { users = [] })
  load unreadable = none
  load (holds text) = parse text

-- How far the writing of a new file comes: it may stop before the rename, or fail after it, when
-- the directory is not synced.
pub data Publishing : Type 0 where
  unpublished : Publishing
  unsynced : Publishing
  synced : Publishing

-- `TempFileGuard::finish` on a file: what it answers, and what the path then holds.
unfoldable pub publish : Publishing → Text → FileState → Bool × FileState
publish unpublished body file = (false, file)
publish unsynced body file = (false, holds body)
publish synced body file = (true, holds body)

module _ (print : UsersConfig → Option Text) where
  unfoldable pub save : UsersConfig → Publishing → FileState → Bool × FileState
  unfolding publish
  save cfg publishing file = elim (print cfg) [
    | none ↦ (false, file)
    | some body ↦ publish publishing body file
  ]

pub find-set_hash_lem :
    (users : List User) (name other h : Text) (u : User)
    → find_user users name ≡ some u
    → find_user (set_hash users name h) other
      ≡ (if key_eq name other then some (record u { hash = h }) else find_user users other)
unfolding find_user set_hash
find-set_hash_lem [] name other h u e = ground arith
find-set_hash_lem (v ∷ users) name other h u e = ground (
  arith,
  find-set_hash_lem users name other h u,
  key_eq_iff v.name name,
  key_eq_iff v.name other,
  key_eq_iff name other,
)
