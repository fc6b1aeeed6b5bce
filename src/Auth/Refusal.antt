-- ===== src/Auth/Refusal.antt =====
-- packages/auth/src/state.rs: what a login that is refused leaves.
use tor_socks.Base.{
  ◌≡◌, refl, sym, ap, subst, ◌∙◌, ◌⊎◌, inl, inr, true, false, not, ◌&&◌, Option, some, [], ◌∷◌,
  arith, Bool-cases, Option-cases,
}
use tor_socks.OrdMap.{key_eq_iff, key_eq}
use tor_socks.OrdMap.Text.{Text, text_ord}
use tor_socks.Auth.Registry.{
  User, UsersConfig, find, find_user, FileState, Publishing, unpublished, unsynced, synced, holds,
  publish, set_hash, load, save,
}
use tor_socks.Auth.Argon.{Primitives, compute_hash, init_sentinel}
use tor_socks.Auth.State.{
  AuthState, Outside, Reply, verify_with_cache, adopt, settle, resolve_init, verify,
  current_registry, refuse,
}

module _ {Phc : Type 0} (prim : Primitives Phc) (parse : Text → Option UsersConfig)
    (print : UsersConfig → Option Text) where
  -- The new registry was renamed into place, and then the sync of its directory failed: the file
  -- holds a hash of the refused password for an account that had none.
  pub record IsHalfDone (s : AuthState) (file : FileState) (out : Outside) (name p : Text)
      (r : Reply) : Type 0 where
    pub persistent : s.persistent ≡ true
    pub failed_late : out.published ≡ unsynced
    pub current : UsersConfig
    pub read : load parse file ≡ some current
    pub user : User
    pub found : find current name ≡ some user
    pub initial : user.hash ≡ init_sentinel
    pub new_hash : Text
    pub computed : compute_hash prim out.salt p ≡ some new_hash
    pub body : Text
    pub printed : print (record { users = set_hash current.users name new_hash }) ≡ some body
    pub on_disk : r.file ≡ holds body

  -- A refusal keeps the cache; the memory is as before or re-read from the file; the file is as
  -- before unless its writing failed after the rename.
  pub record IsRefusal (s : AuthState) (file : FileState) (out : Outside) (name p : Text)
      (r : Reply) : Type 0 where
    pub same_file : (r.file ≡ file) ⊎ IsHalfDone s file out name p r
    pub same_cache : r.state.cache ≡ s.cache
    pub known_users : (r.state.users ≡ s.users) ⊎ (load parse file ≡ some r.state.users)

  verify_with_cache_refused :
      (s : AuthState) (name p h : Text)
      → (verify_with_cache prim s name p h).0 ≡ false
      → (verify_with_cache prim s name p h).1 ≡ s
  unfolding verify_with_cache
  verify_with_cache_refused s name p h e = ground arith

  -- A refused adoption leaves the state, and the file unless it failed late.
  adopt_refused :
      (s : AuthState) (file : FileState) (current : UsersConfig) (name p h : Text) (b : Publishing)
      → (adopt prim parse print s file current name p h b).accepted ≡ false
      → ((adopt prim parse print s file current name p h b).state ≡ s)
        × (((adopt prim parse print s file current name p h b).file ≡ file)
            ⊎ ((s.persistent ≡ true)
                × (b ≡ unsynced)
                × ((body : Text) × (print (record { users = set_hash current.users name h })
                      ≡ some body)
                    × ((adopt prim parse print s file current name p h b).file ≡ holds body))))
  unfolding adopt save publish
  adopt_refused s file current name p h b e = elim (Bool-cases s.persistent) [
    | inr off ↦ absurd (ground (arith, off, e))
    | inl on ↦ elim (Option-cases (print (record { users = set_hash current.users name h }))) [
      | inl none_printed ↦ ground (arith, on, none_printed)
      | inr (body, printed) ↦
          elim b
              as (λ c.
                (adopt prim parse print s file current name p h c).accepted ≡ false
                → ((adopt prim parse print s file current name p h c).state ≡ s)
                  × (((adopt prim parse print s file current name p h c).file ≡ file)
                      ⊎ ((s.persistent ≡ true)
                          × (c ≡ unsynced)
                          × ((body : Text) × (print
                                  (record { users = set_hash current.users name h })
                                ≡ some body)
                              × ((adopt prim parse print s file current name p h c).file
                                  ≡ holds body))))) [
                                    | unpublished ↦ λ f. ground (arith, on, printed)
                                    | unsynced ↦ λ f. (
                                      ground (arith, on, printed),
                                      inr (on, refl, (body, printed, ground (arith, on, printed))),
                                    )
                                    | synced ↦ λ f. absurd (ground (arith, on, printed, f))
                                  ]
            e
    ]
  ]

  kept-IsRefusal :
      (s : AuthState) (file : FileState) (out : Outside) (name p : Text)
      → IsRefusal s file out name p (refuse s file)
  kept-IsRefusal s file out name p = record {
    same_file = inl refl;
    same_cache = refl;
    known_users = inl refl;
  }

  is_refusal :
      (s : AuthState) (file : FileState) (out : Outside) (name p : Text) (q r : Reply)
      → q ≡ r
      → IsRefusal s file out name p q
      → IsRefusal s file out name p r
  is_refusal s file out name p q r e = subst (IsRefusal s file out name p) e

  same-IsRefusal :
      (s : AuthState) (file : FileState) (out : Outside) (name p : Text) (r : Reply)
      → refuse s file ≡ r
      → IsRefusal s file out name p r
  same-IsRefusal s file out name p r e =
      is_refusal s file out name p (refuse s file) r e (kept-IsRefusal s file out name p)

  current_known :
      (s : AuthState) (file : FileState) (current : UsersConfig)
      → current_registry prim parse print s file ≡ some current
      → (current ≡ s.users) ⊎ (load parse file ≡ some current)
  unfolding current_registry
  current_known s file current read = ground arith

  adopted-IsRefusal :
      (s : AuthState) (file : FileState) (out : Outside) (current : UsersConfig) (name p h : Text)
      (u : User)
      → compute_hash prim out.salt p ≡ some h
      → current_registry prim parse print s file ≡ some current
      → find current name ≡ some u
      → u.hash ≡ init_sentinel
      → (adopt prim parse print s file current name p h out.published).accepted ≡ false
      → IsRefusal s file out name p (adopt prim parse print s file current name p h out.published)
  unfolding current_registry
  adopted-IsRefusal s file out current name p h u made read found initial e =
      let (same_state, file') = adopt_refused s file current name p h out.published e in
      record {
        same_file = elim file' [
          | inl same ↦ inl same
          | inr (disk, late, (body, printed, written)) ↦ inr (record {
            persistent = disk;
            failed_late = late;
            current = current;
            read = ground (arith, disk, read);
            user = u;
            found = found;
            initial = initial;
            new_hash = h;
            computed = made;
            body = body;
            printed = printed;
            on_disk = written;
          })
        ];
        same_cache = ap (λ (t : AuthState). t.cache) same_state;
        known_users = inl (ap (λ (t : AuthState). t.users) same_state);
      }

  -- A refusal by the hash of the registry `current`.
  settled-IsRefusal :
      (s : AuthState) (file : FileState) (out : Outside) (current : UsersConfig) (name p h : Text)
      → (current ≡ s.users) ⊎ (load parse file ≡ some current)
      → (verify_with_cache prim (record s { users = current }) name p h).0 ≡ false
      → IsRefusal s file out name p (record {
        accepted = (verify_with_cache prim (record s { users = current }) name p h).0;
        state = (verify_with_cache prim (record s { users = current }) name p h).1;
        file = file;
      })
  settled-IsRefusal s file out current name p h known e =
      let kept = verify_with_cache_refused (record s { users = current }) name p h e in
      record {
        same_file = inl refl;
        same_cache = ap (λ (t : AuthState). t.cache) kept;
        known_users = elim known [
          | inl same ↦ inl (ap (λ (t : AuthState). t.users) kept ∙ same)
          | inr read ↦ inr (read ∙ ap some (sym (ap (λ (t : AuthState). t.users) kept)))
        ];
      }

  settle_refused :
      (s : AuthState) (file : FileState) (out : Outside) (current : UsersConfig) (name p h : Text)
      → compute_hash prim out.salt p ≡ some h
      → current_registry prim parse print s file ≡ some current
      → (settle prim parse print s file current name p h out.published).accepted ≡ false
      → IsRefusal s file out name p (settle prim parse print s file current name p h out.published)
  unfolding settle find
  settle_refused s file out current name p h made read e =
      let r = settle prim parse print s file current name p h out.published in
      elim (Option-cases (find_user current.users name)) [
        | inl unknown ↦ same-IsRefusal s file out name p r (ground (arith, unknown))
        | inr (u, found) ↦ elim (Bool-cases u.is_enabled) [
          | inr off ↦ same-IsRefusal s file out name p r (ground (arith, found, off))
          | inl on ↦ elim (Bool-cases (key_eq u.hash init_sentinel)) [
            | inl initial ↦
                is_refusal s file out name p
                  (adopt prim parse print s file current name p h out.published) r
                  (ground (arith, found, on, initial))
                  (adopted-IsRefusal s file out current name p h u made read found
                    ((key_eq_iff u.hash init_sentinel).0 initial)
                    (ground (arith, found, on, initial, e)))
            | inr real ↦
                is_refusal s file out name p
                  (record {
                    accepted =
                        (verify_with_cache prim (record s { users = current }) name p u.hash).0;
                    state = (verify_with_cache prim (record s { users = current }) name p u.hash).1;
                    file = file;
                  })
                  r (ground (arith, found, on, real))
                  (settled-IsRefusal s file out current name p u.hash
                    (current_known s file current read) (ground (arith, found, on, real, e)))
          ]
        ]
      ]

  resolve_init_refused :
      (s : AuthState) (file : FileState) (out : Outside) (name p : Text)
      → (resolve_init prim parse print s file out name p).accepted ≡ false
      → IsRefusal s file out name p (resolve_init prim parse print s file out name p)
  unfolding resolve_init
  resolve_init_refused s file out name [] e = kept-IsRefusal s file out name []
  resolve_init_refused s file out name (c ∷ p) e =
      let r = resolve_init prim parse print s file out name (c ∷ p) in
      elim (Option-cases (compute_hash prim out.salt (c ∷ p))) [
        | inl none_made ↦ same-IsRefusal s file out name (c ∷ p) r (ground (arith, none_made))
        | inr (h, made) ↦ elim (Bool-cases (s.persistent && not out.lock_taken)) [
          | inl busy ↦ same-IsRefusal s file out name (c ∷ p) r (ground (arith, made, busy))
          | inr free ↦ elim (Option-cases (current_registry prim parse print s file)) [
            | inl no_registry ↦
                same-IsRefusal s file out name (c ∷ p) r (ground (arith, made, free, no_registry))
            | inr (current, read) ↦
                is_refusal s file out name (c ∷ p)
                  (settle prim parse print s file current name (c ∷ p) h out.published) r
                  (ground (arith, made, free, read))
                  (settle_refused s file out current name (c ∷ p) h made read
                    (ground (arith, made, free, read, e)))
          ]
        ]
      ]

  -- A login that is refused does not change the cache, and the users in memory are as before or as
  -- read from the file. The file is as before, unless the account had no password in it and the
  -- writing failed after the rename: then it holds the registry with a hash of the refused password.
  pub refused-IsRefusal :
      (s : AuthState) (file : FileState) (out : Outside) (name p : Text)
      → (verify prim parse print s file out name p).accepted ≡ false
      → IsRefusal s file out name p (verify prim parse print s file out name p)
  unfolding verify find
  refused-IsRefusal s file out name p e =
      let r = verify prim parse print s file out name p in
      elim (Option-cases (find_user s.users.users name)) [
        | inl unknown ↦ same-IsRefusal s file out name p r (ground (arith, unknown))
        | inr (u, found) ↦ elim (Bool-cases u.is_enabled) [
          | inr off ↦ same-IsRefusal s file out name p r (ground (arith, found, off))
          | inl on ↦ elim (Bool-cases (key_eq u.hash init_sentinel)) [
            | inl initial ↦
                is_refusal s file out name p (resolve_init prim parse print s file out name p) r
                  (ground (arith, found, on, initial))
                  (resolve_init_refused s file out name p (ground (arith, found, on, initial, e)))
            | inr real ↦
                is_refusal s file out name p
                  (record {
                    accepted = (verify_with_cache prim s name p u.hash).0;
                    state = (verify_with_cache prim s name p u.hash).1;
                    file = file;
                  })
                  r (ground (arith, found, on, real))
                  (settled-IsRefusal s file out s.users name p u.hash (inl refl)
                    (ground (arith, found, on, real, e)))
          ]
        ]
      ]
