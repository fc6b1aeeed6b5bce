-- ===== src/Auth/Sound.antt =====
-- packages/auth/src/state.rs: the success cache holds only credentials that verify.
use tor_socks.Base.{
  ◌≡◌, sym, ap, subst, ◌∙◌, ◌↔◌, ◌⊎◌, inl, inr, true, Option, none, some, [], ◌∷◌, ◌++◌, arith,
  Bool-cases, Option-cases,
}
use tor_socks.OrdMap.{key_eq, key_eq_iff, lookup}
use tor_socks.OrdMap.Text.{Text, text_ord}
use tor_socks.OrdMap.Laws.{lookup-insert}
use tor_socks.Auth.Registry.{UsersConfig, find_user, set_hash, FileState, Publishing}
use tor_socks.Auth.Argon.{Primitives, PrimitiveLaws, compute_hash, verify_hash, hmac}
use tor_socks.Auth.State.{
  CacheEntry, AuthState, Outside, is_cached, verify_with_cache, adopt, settle, resolve_init, verify,
  current_registry, remember,
}

append-cancel : (a b c : Text) → a ++ b ≡ a ++ c → b ≡ c
append-cancel [] b c e = e
append-cancel (x ∷ a) b c e = append-cancel a b c (ground (arith, e))

module _ {Phc : Type 0} (prim : Primitives Phc) where
  -- Every entry was made for a password that its hash accepts.
  unfoldable pub IsSound : AuthState → Type 0
  IsSound s =
      (name : Text) (c : CacheEntry)
      → lookup name s.cache ≡ some c
      → (p : Text) × (verify_hash prim c.hash_snapshot p ≡ some true)
        × (c.tag ≡ hmac prim s.server_secret name p)

  hmac-injective :
      (key name p q : Text)
      → PrimitiveLaws prim
      → hmac prim key name p ≡ hmac prim key name q
      → p ≡ q
  unfolding hmac
  hmac-injective key name p q laws e =
      let tails : 0 ∷ p ≡ 0 ∷ q =
        append-cancel name (0 ∷ p) (0 ∷ q)
          (laws.mac_injective key (name ++ (0 ∷ p)) (name ++ (0 ∷ q)) e) in
      ground arith

  -- A hit of the cache is a success of the real check.
  is_cached-verifies :
      (s : AuthState) (name h p : Text)
      → PrimitiveLaws prim
      → IsSound s
      → is_cached prim s name h (hmac prim s.server_secret name p) ≡ true
      → verify_hash prim h p ≡ some true
  unfolding is_cached IsSound
  is_cached-verifies s name h p laws sound hit = elim (Option-cases (lookup name s.cache)) [
    | inl unknown ↦ absurd (ground arith)
    | inr (c, found) ↦
        let (q, ok, made) = sound name c found in
        ground (
          arith,
          key_eq_iff c.hash_snapshot h,
          key_eq_iff c.tag (hmac prim s.server_secret name p),
          hmac-injective s.server_secret name p q laws,
        )
  ]

  remember-IsSound :
      (s : AuthState) (name h p : Text)
      → verify_hash prim h p ≡ some true
      → IsSound s
      → IsSound (remember s name h (hmac prim s.server_secret name p))
  unfolding IsSound
  remember-IsSound s name h p ok sound other c e =
      let fresh : CacheEntry = record {
        hash_snapshot = h;
        tag = hmac prim s.server_secret name p;
      } in
      elim (Bool-cases (key_eq other name)) [
        | inl same ↦
            let is_new : fresh ≡ c = ground (arith, lookup-insert name other fresh s.cache) in
            (
              p,
              ap (λ (d : CacheEntry). verify_hash prim d.hash_snapshot p) (sym is_new) ∙ ok,
              ap (λ (d : CacheEntry). d.tag) (sym is_new)
                  ∙ ap (λ (n : Text). hmac prim s.server_secret n p)
                      (sym ((key_eq_iff other name).0 same)),
            )
        | inr different ↦ sound other c (ground (arith, lookup-insert name other fresh s.cache))
      ]

  pub moved :
      (s : AuthState) (users : UsersConfig) → IsSound s → IsSound (record s { users = users })
  unfolding IsSound
  moved s users sound = sound

  -- A login checked against a hash, with what it leaves in the cache.
  pub verify_with_cache_lem :
      (s : AuthState) (name p h : Text)
      → PrimitiveLaws prim
      → IsSound s
      → ((verify_with_cache prim s name p h).0 ≡ true) ↔ (verify_hash prim h p ≡ some true)
  unfolding verify_with_cache
  verify_with_cache_lem s name p h laws sound =
      ground (arith, is_cached-verifies s name h p laws sound)

  verify_with_cache_cases :
      (s : AuthState) (name p h : Text)
      → ((verify_with_cache prim s name p h).1 ≡ s)
        ⊎ ((verify_hash prim h p ≡ some true)
            × ((verify_with_cache prim s name p h).1
                ≡ remember s name h (hmac prim s.server_secret name p)))
  unfolding verify_with_cache
  verify_with_cache_cases s name p h = ground arith

  pub verify_with_cache-IsSound :
      (s : AuthState) (name p h : Text) → IsSound s → IsSound (verify_with_cache prim s name p h).1
  verify_with_cache-IsSound s name p h sound = elim (verify_with_cache_cases s name p h) [
    | inl same ↦ subst IsSound (sym same) sound
    | inr (ok, new) ↦ subst IsSound (sym new) (remember-IsSound s name h p ok sound)
  ]

module _ {Phc : Type 0} (prim : Primitives Phc) (parse : Text → Option UsersConfig)
    (print : UsersConfig → Option Text) (laws : PrimitiveLaws prim) where
  pub computed_accepts :
      (salt : Option Text) (p h : Text)
      → compute_hash prim salt p ≡ some h
      → verify_hash prim h p ≡ some true
  unfolding compute_hash
  computed_accepts none p h e = absurd (ground arith)
  computed_accepts (some salt) p h e = laws.hash_accepts p salt h e

  adopt-IsSound :
      (s : AuthState) (file : FileState) (current : UsersConfig) (name p h : Text) (b : Publishing)
      → verify_hash prim h p ≡ some true
      → IsSound prim s
      → IsSound prim (adopt prim parse print s file current name p h b).state
  unfolding adopt
  adopt-IsSound s file current name p h b ok sound =
      let next : AuthState = record s {
        users = record { users = set_hash current.users name h };
      } in
      let sound' : IsSound prim next = moved prim s next.users sound in
      let kept : IsSound prim (remember next name h (hmac prim s.server_secret name p)) =
        remember-IsSound prim next name h p ok sound' in
      ground (arith, kept)

  settle-IsSound :
      (s : AuthState) (file : FileState) (current : UsersConfig) (name p h : Text) (b : Publishing)
      → verify_hash prim h p ≡ some true
      → IsSound prim s
      → IsSound prim (settle prim parse print s file current name p h b).state
  unfolding settle
  settle-IsSound s file current name p h b ok sound =
      elim (Option-cases (find_user current.users name)) [
        | inl unknown ↦ ground (arith, sound)
        | inr (u, found) ↦ ground (
          arith,
          sound,
          adopt-IsSound s file current name p h b ok sound,
          verify_with_cache-IsSound prim (record s { users = current }) name p u.hash
              (moved prim s current sound),
        )
      ]

  resolve_init-IsSound :
      (s : AuthState) (file : FileState) (out : Outside) (name p : Text)
      → IsSound prim s
      → IsSound prim (resolve_init prim parse print s file out name p).state
  unfolding resolve_init
  resolve_init-IsSound s file out name [] sound = sound
  resolve_init-IsSound s file out name (c ∷ p) sound =
      elim (Option-cases (compute_hash prim out.salt (c ∷ p))) [
        | inl none_made ↦ ground (arith, sound)
        | inr (h, made) ↦ elim (Option-cases (current_registry prim parse print s file)) [
          | inl no_registry ↦ ground (arith, sound)
          | inr (current, read) ↦ ground (
            arith,
            sound,
            settle-IsSound s file current name (c ∷ p) h out.published
                (computed_accepts out.salt (c ∷ p) h made) sound,
          )
        ]
      ]

  -- If the primitives behave, every login keeps the cache sound.
  pub verify-IsSound :
      (s : AuthState) (file : FileState) (out : Outside) (name p : Text)
      → IsSound prim s
      → IsSound prim (verify prim parse print s file out name p).state
  unfolding verify
  verify-IsSound s file out name p sound = elim (Option-cases (find_user s.users.users name)) [
    | inl unknown ↦ ground (arith, sound)
    | inr (u, found) ↦ ground (
      arith,
      sound,
      resolve_init-IsSound s file out name p sound,
      verify_with_cache-IsSound prim s name p u.hash sound,
    )
  ]
