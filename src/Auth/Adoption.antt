-- ===== src/Auth/Adoption.antt =====
-- packages/auth/src/state.rs: the first login of an account that has no password yet.
use tor_socks.Base.{
  ◌≡◌, ap, subst, ◌∙◌, ◌≢◌, ◌↔◌, inl, inr, Bool, true, Option, none, some, List, [], ◌∷◌, arith,
  if◌then◌else◌, Option-cases,
}
use tor_socks.OrdMap.{key_eq_iff, key_eq_refl}
use tor_socks.OrdMap.Text.{Text, text_ord}
use tor_socks.Auth.Registry.{
  User, UsersConfig, find, find_user, set_hash, FileState, Publishing, publish, holds, save,
  find-set_hash_lem,
}
use tor_socks.Auth.Argon.{Primitives, PrimitiveLaws, compute_hash, verify_hash, init_sentinel}
use tor_socks.Auth.State.{
  verify_with_cache, AuthState, Outside, Reply, adopt, settle, resolve_init, verify,
  current_registry,
}
use tor_socks.Auth.Sound.{IsSound, verify-IsSound, computed_accepts}
use tor_socks.Auth.Login.{verify-settled}

module _ {Phc : Type 0} (prim : Primitives Phc) (parse : Text → Option UsersConfig)
    (print : UsersConfig → Option Text) where
  -- The memory is the registry `current` with the new hash `h` for `name`, and the file is its text.
  pub record IsAdoption (s : AuthState) (current : UsersConfig) (name h : Text) (r : Reply)
      : Type 0 where
    pub in_memory : r.state.users.users ≡ set_hash current.users name h
    pub on_disk :
        s.persistent ≡ true
        → (body : Text) × (print r.state.users ≡ some body) × (r.file ≡ holds body)

  adopt-IsAdoption :
      (s : AuthState) (file : FileState) (current : UsersConfig) (name p h : Text) (b : Publishing)
      → (adopt prim parse print s file current name p h b).accepted ≡ true
      → IsAdoption s current name h (adopt prim parse print s file current name p h b)
  unfolding adopt save publish
  adopt-IsAdoption s file current name p h b e =
      let next : UsersConfig = record { users = set_hash current.users name h } in
      elim (Option-cases (print next)) [
        | inl refused ↦ record { in_memory = ground arith; on_disk = ground arith }
        | inr (text, printed) ↦ record {
          in_memory = ground arith;
          on_disk = λ disk. (text, ground (arith, disk, printed), ground (arith, disk, printed));
        }
      ]

  -- The account is in its initial state in memory and in the registry `current`.
  pub record IsInit (s : AuthState) (current : UsersConfig) (file : FileState) (name : Text)
      : Type 0 where
    pub user : User
    pub in_memory : find s.users name ≡ some user
    pub enabled : user.is_enabled ≡ true
    pub initial : user.hash ≡ init_sentinel
    pub current_user : User
    pub read : current_registry prim parse print s file ≡ some current
    pub in_current : find current name ≡ some current_user
    pub current_initial : current_user.hash ≡ init_sentinel

  settle_init :
      (s : AuthState) (file : FileState) (current : UsersConfig) (name p h : Text) (b : Publishing)
      (u : User)
      → find current name ≡ some u
      → u.hash ≡ init_sentinel
      → (settle prim parse print s file current name p h b).accepted ≡ true
      → (u.is_enabled ≡ true)
        × IsAdoption s current name h (settle prim parse print s file current name p h b)
  unfolding settle find
  settle_init s file current name p h b u found init e =
      ground
        (arith, found, key_eq_iff u.hash init_sentinel, adopt-IsAdoption s file current name p h b)

  is_resolved :
      (s : AuthState) (file : FileState) (out : Outside) (name p : Text) (current : UsersConfig)
      → IsInit s current file name
      → verify prim parse print s file out name p ≡ resolve_init prim parse print s file out name p
  unfolding verify find
  is_resolved s file out name p current init =
      ground (arith, init.in_memory, key_eq_iff init.user.hash init_sentinel)

  resolve_init_adopts :
      (s : AuthState) (file : FileState) (out : Outside) (name p : Text) (current : UsersConfig)
      (init : IsInit s current file name)
      → (resolve_init prim parse print s file out name p).accepted ≡ true
      → (h : Text) × (compute_hash prim out.salt p ≡ some h)
        × (init.current_user.is_enabled ≡ true)
        × IsAdoption s current name h (resolve_init prim parse print s file out name p)
  unfolding resolve_init
  resolve_init_adopts s file out name [] current init e = absurd (ground arith)
  resolve_init_adopts s file out name (c ∷ p) current init e =
      elim (Option-cases (compute_hash prim out.salt (c ∷ p))) [
        | inl none_made ↦ absurd (ground arith)
        | inr (h, made) ↦
            let settled : (init.current_user.is_enabled ≡ true)
                × IsAdoption s current name h
                    (resolve_init prim parse print s file out name (c ∷ p)) =
              ground (
                arith,
                init.read,
                settle_init s file current name (c ∷ p) h out.published init.current_user
                    init.in_current init.current_initial,
              ) in
            (h, made, settled.0, settled.1)
      ]

  -- If the account is in its initial state in memory and in the registry read, an accepted login computed a hash, found the account enabled, and left that registry with
  -- this hash in memory and, when there is a path, in the file.
  pub accepted-IsAdoption :
      (s : AuthState) (file : FileState) (out : Outside) (name p : Text) (current : UsersConfig)
      (init : IsInit s current file name)
      → (verify prim parse print s file out name p).accepted ≡ true
      → (h : Text) × (compute_hash prim out.salt p ≡ some h)
        × (init.current_user.is_enabled ≡ true)
        × IsAdoption s current name h (verify prim parse print s file out name p)
  accepted-IsAdoption s file out name p current init =
      rw (is_resolved s file out name p current init)
        (resolve_init_adopts s file out name p current init)

  computed-real :
      (salt : Option Text) (p h : Text)
      → PrimitiveLaws prim
      → compute_hash prim salt p ≡ some h
      → h ≢ init_sentinel
  unfolding compute_hash
  computed-real none p h laws e = absurd (ground arith)
  computed-real (some salt) p h laws e = laws.hash_is_real p salt h e

  computed-refuses :
      (salt : Option Text) (p h q : Text)
      → PrimitiveLaws prim
      → compute_hash prim salt p ≡ some h
      → verify_hash prim h q ≡ some true
      → p ≡ q
  unfolding compute_hash
  computed-refuses none p h q laws e k = absurd (ground arith)
  computed-refuses (some salt) p h q laws e k = laws.hash_refuses p salt h q e k

  -- Logins to one account, each with what it meets outside and its password.
  abbrev pub Attempt : Type 0
  Attempt = FileState × Outside × Text

  unfoldable pub attempts : Text → List Attempt → AuthState → AuthState
  attempts name [] s = s
  attempts name ((file, out, q) ∷ later) s =
      attempts name later (verify prim parse print s file out name q).state

  -- A login against a stored hash leaves the users in memory.
  login_keeps_users :
      (s : AuthState) (file : FileState) (out : Outside) (name p : Text) (u : User)
      → find s.users name ≡ some u
      → u.is_enabled ≡ true
      → u.hash ≢ init_sentinel
      → (verify prim parse print s file out name p).state.users ≡ s.users
  unfolding verify find verify_with_cache
  login_keeps_users s file out name p u found on real =
      ground (arith, found, on, key_eq_iff u.hash init_sentinel, real)

  attempts-settled :
      (name : Text) (history : List Attempt) (s : AuthState) (u : User)
      → PrimitiveLaws prim
      → IsSound prim s
      → find s.users name ≡ some u
      → u.is_enabled ≡ true
      → u.hash ≢ init_sentinel
      → IsSound prim (attempts name history s)
        × (find (attempts name history s).users name ≡ some u)
  unfolding attempts
  attempts-settled name [] s u laws sound found on real = (sound, found)
  attempts-settled name ((file, out, q) ∷ later) s u laws sound found on real =
      let r : Reply = verify prim parse print s file out name q in
      attempts-settled name later r.state u laws
        (verify-IsSound prim parse print laws s file out name q sound)
        (ap (λ (c : UsersConfig). find c name) (login_keeps_users s file out name q u found on real)
          ∙ found)
        on real

  -- With primitives that behave, a sound cache, and an account that is in its initial state in memory
  -- and in the registry read: after a first login that was accepted, and any further logins to the
  -- account, whatever happens outside, a login to the account is accepted for the adopted password
  -- and for no other.
  pub verify-adopted :
      (s : AuthState) (file : FileState) (out : Outside) (name p : Text) (current : UsersConfig)
      (history : List Attempt) (later : FileState) (out' : Outside) (q : Text)
      → PrimitiveLaws prim
      → IsSound prim s
      → IsInit s current file name
      → (verify prim parse print s file out name p).accepted ≡ true
      → ((verify prim parse print
            (attempts name history (verify prim parse print s file out name p).state)
            later
            out'
            name
            q).accepted
          ≡ true)
        ↔ (p ≡ q)
  unfolding find
  verify-adopted s file out name p current history later out' q laws sound init e =
      let (h, made, on, adoption) = accepted-IsAdoption s file out name p current init e in
      let r : Reply = verify prim parse print s file out name p in
      let u : User = record init.current_user { hash = h } in
      let found : find r.state.users name ≡ some u =
        ap (λ (us : List User). find_user us name) adoption.in_memory
        ∙ find-set_hash_lem current.users name name h init.current_user init.in_current
        ∙ ap (λ (t : Bool). if t then some u else find_user current.users name)
            (key_eq_refl name) in
      let real = computed-real out.salt p h laws made in
      let (sound', found') =
        attempts-settled name history r.state u laws
          (verify-IsSound prim parse print laws s file out name p sound) found on real in
      let settled =
        verify-settled prim parse print (attempts name history r.state) later out' name q u laws
          sound' found' on real in
      (
        λ k. computed-refuses out.salt p h q laws made (settled.0 k),
        λ same. settled.1 (
            subst (λ (t : Text). verify_hash prim h t ≡ some true) same
              (computed_accepts prim parse print laws out.salt p h made)),
      )
