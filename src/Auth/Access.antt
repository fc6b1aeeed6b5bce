-- ===== src/Auth/Access.antt =====
-- packages/auth/src/state.rs: what an account may do, and from which address.
use tor_socks.Base.{
  ◌≡◌, refl, ◌∙◌, ◌↔◌, inl, inr, Bool, true, false, ◌&&◌, Option, none, some, arith, Option-cases,
}
use tor_socks.OrdMap.Text.{Text, text_ord}
use tor_socks.Acl.Rule.{IpAddr}
use tor_socks.Acl.Clients.{AllowedClients, client_matches}
use tor_socks.Auth.Registry.{User, find, find_user}
use tor_socks.Auth.State.{AuthState, client_allowed, allowed_onion}

-- The policy of an account admits the peer: there is none, or a rule matches.
pub data Admits (peer : IpAddr) : Option AllowedClients → Type 0 where
  unrestricted : Admits peer none
  listed : {policy : AllowedClients} → client_matches policy peer ≡ true → Admits peer (some policy)

abbrev admits : IpAddr → Option AllowedClients → Bool
admits peer none = true
admits peer (some policy) = client_matches policy peer

admits_iff : (peer : IpAddr) (o : Option AllowedClients) → (admits peer o ≡ true) ↔ Admits peer o
admits_iff peer none = (λ h. unrestricted, λ h. refl)
admits_iff peer (some policy) = (listed, elim [ listed h ↦ h ])

client_allowed_of :
    (s : AuthState) (name : Text) (peer : IpAddr) (u : User)
    → find s.users name ≡ some u
    → client_allowed s name peer ≡ (u.is_enabled && admits peer u.allowed_clients)
unfolding client_allowed find
client_allowed_of s name peer u found = ground (arith, found)

client_allowed_unknown :
    (s : AuthState) (name : Text) (peer : IpAddr)
    → find s.users name ≡ none
    → client_allowed s name peer ≡ false
unfolding client_allowed find
client_allowed_unknown s name peer h = ground (arith, h)

-- A peer is allowed for an account iff the account is known and enabled and has no policy or one
-- with a rule that matches the peer.
pub client_allowed_lem :
    (s : AuthState) (name : Text) (peer : IpAddr)
    → (client_allowed s name peer ≡ true) ↔ (
        (u : User) × (find s.users name ≡ some u)
        × (u.is_enabled ≡ true)
        × Admits peer u.allowed_clients)
client_allowed_lem s name peer = elim (Option-cases (find s.users name)) [
  | inl unknown ↦ (
    λ h. absurd (ground (arith, client_allowed_unknown s name peer unknown)),
    λ t. absurd (ground (arith, t.1)),
  )
  | inr (u, found) ↦ (
    λ h.
        let both : (u.is_enabled ≡ true) × (admits peer u.allowed_clients ≡ true) =
          ground (arith, client_allowed_of s name peer u found) in
        (u, found, both.0, (admits_iff peer u.allowed_clients).0 both.1),
    λ t.
        client_allowed_of s name peer t.0 t.1
        ∙ rw (t.2, (admits_iff peer t.0.allowed_clients).1 t.3) refl,
  )
]

pub allowed_onion_lem :
    (s : AuthState) (name : Text)
    → (allowed_onion s name ≡ true) ↔ (
        (u : User) × (find s.users name ≡ some u)
        × (u.is_enabled ≡ true)
        × (u.allowed_onion ≡ true))
unfolding allowed_onion find
allowed_onion_lem s name = elim (Option-cases (find_user s.users.users name)) [
  | inl unknown ↦ ground arith
  | inr (u, found) ↦ ground (arith, found)
]
