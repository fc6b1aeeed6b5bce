-- ===== src/Acl/Clients.antt =====
-- packages/proxy-config/client-acl/src/lib.rs: an allow-list with its source text.
use tor_socks.Acl.Rule.{IpAddr, Rule, anyone, allows}
use tor_socks.Base.{◌∷◌, List, Bool, []}
use tor_socks.Acl.Rule.{IpAddr, Rule, anyone, allows}
use tor_socks.OrdMap.Text.{Text}

pub record AllowedClients : Type 0 where
  pub source : Text
  pub rules : List Rule

-- `AllowedClients::default`, with the text `*`.
abbrev pub allow_everyone : AllowedClients
allow_everyone = record { source = 42 ∷ []; rules = anyone ∷ [] }

unfoldable pub client_matches : AllowedClients → IpAddr → Bool
client_matches list ip = allows list.rules ip

unfoldable pub as_str : AllowedClients → Text
as_str list = list.source
