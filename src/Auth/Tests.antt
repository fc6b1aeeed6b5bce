-- ===== src/Auth/Tests.antt =====
-- Concrete primitives and a file format for the login, and the theorems at concrete inputs.
use tor_socks.Base.{
  ◌≡◌, refl, ◌↔◌, Bool, true, false, not, ◌||◌, Option, none, some, List, [], ◌∷◌, arith,
  if◌then◌else◌, ◌==◌,
}
use tor_socks.OrdMap.{key_eq, key_eq_iff, key_eq_refl, lookup}
use tor_socks.OrdMap.Text.{Text, text_ord, text_cmp}
use tor_socks.Auth.Registry.{
  User, UsersConfig, find, find_user, set_hash, FileState, missing, holds, load, save, publish,
  unpublished, unsynced, synced,
}
use tor_socks.Auth.Argon.{
  Primitives, PrimitiveLaws, right_password, wrong_password, verify_hash, compute_hash,
  init_sentinel,
}
use tor_socks.Auth.State.{AuthState, Outside, verify, current_registry, resolve_init, settle, adopt}
use tor_socks.Auth.Sound.{IsSound, verify-IsSound}
use tor_socks.Auth.Login.{verify-settled}
use tor_socks.Auth.Refusal.{IsRefusal, refused-IsRefusal}
use tor_socks.Auth.Adoption.{IsInit, Attempt, attempts, verify-adopted}

-- A hash is `$` and the password.
abbrev read_phc : Text → Option Text
read_phc [] = none
read_phc (c ∷ p) = if c == 36 then some p else none

abbrev toy : Primitives Text
toy = record {
  hash_password = λ p salt. some (36 ∷ p);
  parse_phc = read_phc;
  verify_password = λ p h. if key_eq p h then right_password else wrong_password;
  mac = λ key t. t;
}

toy_laws : PrimitiveLaws toy
unfolding verify_hash
toy_laws = record {
  hash_accepts = λ p salt h e. ground (arith, e, key_eq_refl p);
  hash_refuses = λ p salt h q e k. ground (arith, e, k, key_eq_iff q p);
  hash_is_real = λ p salt h e k. ground (arith, e, k);
  mac_injective = λ key a b e. e;
}

abbrev account : Text → Text → User
account n h = record {
  name = n;
  hash = h;
  is_enabled = true;
  allowed_onion = false;
  allowed_clients = none;
  pre_socks5 = none;
  post_socks5 = none;
}

-- A format for the registries with one plain account that has a one-byte name.
abbrev read_file : Text → Option UsersConfig
read_file [] = none
read_file (n ∷ h) = some (record { users = account (n ∷ []) h ∷ [] })

abbrev print_user : User → Option Text
print_user u = elim u.name [
  | [] ↦ none
  | n ∷ more ↦ elim more [
    | c ∷ cs ↦ none
    | [] ↦ if not u.is_enabled || u.allowed_onion then none else elim u.allowed_clients [
      | some list ↦ none
      | none ↦ elim u.pre_socks5 [
        | some e ↦ none
        | none ↦ elim u.post_socks5 [ some e ↦ none | none ↦ some (n ∷ u.hash) ]
      ]
    ]
  ]
]

abbrev write_file : UsersConfig → Option Text
write_file cfg = elim cfg.users [
  | [] ↦ none
  | u ∷ more ↦ elim more [ v ∷ vs ↦ none | [] ↦ print_user u ]
]

-- The account `a` without a password, on a persistent registry.
abbrev fresh : UsersConfig
fresh = record { users = account (97 ∷ []) init_sentinel ∷ [] }

abbrev fresh_file : FileState
fresh_file = holds (97 ∷ init_sentinel)

abbrev start : AuthState
start = record { users = fresh; cache = []; server_secret = 1 ∷ []; persistent = true }

abbrev calm : Outside
calm = record { salt = some (7 ∷ []); lock_taken = true; published = synced }

abbrev disk_full : Outside
disk_full = record { salt = some (7 ∷ []); lock_taken = true; published = unpublished }

-- The rename succeeds and the sync of the directory fails.
abbrev sync_fails : Outside
sync_fails = record { salt = some (7 ∷ []); lock_taken = true; published = unsynced }

-- The same account with the password `x`.
abbrev provisioned : AuthState
provisioned = record {
  users = record { users = account (97 ∷ []) (36 ∷ 120 ∷ []) ∷ [] };
  cache = [];
  server_secret = 1 ∷ [];
  persistent = true;
}

no_cache-IsSound :
    (u : UsersConfig) (k : Text) (b : Bool)
    → IsSound toy (record { users = u; cache = []; server_secret = k; persistent = b })
unfolding IsSound lookup
no_cache-IsSound u k b name c e = absurd (ground arith)

start-IsInit : IsInit toy read_file write_file start fresh fresh_file (97 ∷ [])
unfolding find find_user current_registry load text_cmp
start-IsInit = record {
  user = account (97 ∷ []) init_sentinel;
  in_memory = refl;
  enabled = refl;
  initial = refl;
  current_user = account (97 ∷ []) init_sentinel;
  read = refl;
  in_current = refl;
  current_initial = refl;
}

abbrev password_x : Text
password_x = 120 ∷ []

abbrev password_y : Text
password_y = 121 ∷ []

first_login :
    (verify toy read_file write_file start fresh_file calm (97 ∷ []) (120 ∷ [])).accepted ≡ true
unfolding verify find find_user resolve_init compute_hash current_registry load settle adopt save
    publish set_hash text_cmp
first_login = refl

-- A wrong password and then the right one, while the file is gone.
abbrev two_more : List (Attempt toy read_file write_file)
two_more = (missing, calm, 122 ∷ []) ∷ (missing, disk_full, 120 ∷ []) ∷ []

verify-adopted_example :
    ((verify toy read_file write_file
        (attempts toy read_file write_file
          (97 ∷ [])
          two_more
          (verify toy read_file write_file start fresh_file calm (97 ∷ []) (120 ∷ [])).state)
        missing
        disk_full
        (97 ∷ [])
        (121 ∷ [])).accepted
      ≡ true)
    ↔ (password_x ≡ password_y)
verify-adopted_example =
    verify-adopted toy read_file write_file start fresh_file calm (97 ∷ []) (120 ∷ []) fresh
      two_more missing disk_full (121 ∷ []) toy_laws (no_cache-IsSound fresh (1 ∷ []) true)
      start-IsInit first_login

verify-IsSound_example :
    IsSound toy (verify toy read_file write_file start fresh_file calm (97 ∷ []) (120 ∷ [])).state
verify-IsSound_example =
    verify-IsSound toy read_file write_file toy_laws start fresh_file calm (97 ∷ []) (120 ∷ [])
      (no_cache-IsSound fresh (1 ∷ []) true)

verify-settled_example :
    ((verify toy read_file write_file provisioned missing calm (97 ∷ []) (120 ∷ [])).accepted
      ≡ true)
    ↔ (verify_hash toy (36 ∷ 120 ∷ []) (120 ∷ []) ≡ some true)
unfolding find find_user text_cmp
verify-settled_example =
    verify-settled toy read_file write_file provisioned missing calm (97 ∷ []) (120 ∷ [])
      (account (97 ∷ []) (36 ∷ 120 ∷ [])) toy_laws
      (no_cache-IsSound provisioned.users (1 ∷ []) true) refl refl (ground arith)

not_persisted :
    (verify toy read_file write_file start fresh_file sync_fails (97 ∷ []) (120 ∷ [])).accepted
    ≡ false
unfolding verify find find_user resolve_init compute_hash current_registry load settle adopt save
    publish set_hash text_cmp
not_persisted = refl

half_done :
    (verify toy read_file write_file start fresh_file sync_fails (97 ∷ []) (120 ∷ [])).file
    ≡ holds (97 ∷ 36 ∷ 120 ∷ [])
unfolding verify find find_user resolve_init compute_hash current_registry load settle adopt save
    publish set_hash text_cmp
half_done = refl

refused-IsRefusal_example :
    IsRefusal toy read_file write_file start fresh_file sync_fails
      (97 ∷ [])
      (120 ∷ [])
      (verify toy read_file write_file start fresh_file sync_fails (97 ∷ []) (120 ∷ []))
refused-IsRefusal_example =
    refused-IsRefusal toy read_file write_file start fresh_file sync_fails (97 ∷ []) (120 ∷ [])
      not_persisted
