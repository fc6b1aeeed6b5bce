-- ===== src/Auth/Argon.antt =====
-- packages/auth/src/compute_hash.rs, and the HMAC of packages/auth/src/state.rs. Argon2, the PHC
-- format and the keyed hash are other packages', and fields of `Primitives`.
use tor_socks.Base.{◌≡◌, ◌≢◌, Bool, true, false, Option, none, some, [], ◌∷◌, ◌++◌}
use tor_socks.OrdMap.Text.{Text}

-- What `verify_password` answers.
pub data Verdict : Type 0 where
  right_password : Verdict
  wrong_password : Verdict
  failed : Verdict

pub record Primitives (Phc : Type 0) : Type 0 where
  pub hash_password : Text → Text → Option Text
  pub parse_phc : Text → Option Phc
  pub verify_password : Text → Phc → Verdict
  pub mac : Text → Text → Text

module _ {Phc : Type 0} (prim : Primitives Phc) where
  -- The salt is drawn from the system, which may fail.
  unfoldable pub compute_hash : Option Text → Text → Option Text
  compute_hash none password = none
  compute_hash (some salt) password = prim.hash_password password salt

  -- `none` when the stored hash is malformed or the check fails.
  unfoldable pub verify_hash : Text → Text → Option Bool
  verify_hash stored_phc password = elim (prim.parse_phc stored_phc) [
    | none ↦ none
    | some parsed ↦ elim (prim.verify_password password parsed) [
      | right_password ↦ some true
      | wrong_password ↦ some false
      | failed ↦ none
    ]
  ]

  unfoldable pub hmac : Text → Text → Text → Text
  hmac server_secret name password = prim.mac server_secret (name ++ (0 ∷ password))

-- The bytes of the word `init`.
abbrev pub init_sentinel : Text
init_sentinel = 105 ∷ 110 ∷ 105 ∷ 116 ∷ []

module _ {Phc : Type 0} (prim : Primitives Phc) where
  -- A computed hash reads back, accepts its password and no other, and is not the sentinel; the
  -- keyed hash tells different inputs apart.
  pub record PrimitiveLaws : Type 0 where
    pub hash_accepts :
        (p salt h : Text) → prim.hash_password p salt ≡ some h → verify_hash prim h p ≡ some true
    pub hash_refuses :
        (p salt h q : Text)
        → prim.hash_password p salt ≡ some h
        → verify_hash prim h q ≡ some true
        → p ≡ q
    pub hash_is_real : (p salt h : Text) → prim.hash_password p salt ≡ some h → h ≢ init_sentinel
    pub mac_injective : (key a b : Text) → prim.mac key a ≡ prim.mac key b → a ≡ b
