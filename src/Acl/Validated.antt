-- ===== src/Acl/Validated.antt =====
-- packages/proxy-config/client-acl/src/parser.rs and lib.rs: every token of a list is validated.
use tor_socks.Base.{ℕ, ◌≡◌, refl, ◌↔◌, false, ◌&&◌, Option, List, [], ◌∷◌, map, arith, length, ◌==◌}
use tor_socks.OrdMap.Text.{Text}
use tor_socks.Acl.Rule.{IpAddr, Rule}
use tor_socks.Acl.Clients.{AllowedClients}
use tor_socks.Acl.Endpoint.{is_empty_text}
use tor_socks.Acl.Parser.{accepted, split}
use tor_socks.Acl.AllowList.{parse_token, parse_tokens, parse, read_clients, first_is_empty}

module _ (parse_ip : Text → Option IpAddr) (parse_v6 : Text → Option ℕ) where
  -- Each token is accepted, in its order, with its rule.
  pub data Reads : List Text → List Rule → Type 0 where
    no_token : Reads [] []
    one_more :
        {token : Text} {rule : Rule} {tokens : List Text} {rules : List Rule}
        → parse_token parse_ip parse_v6 token ≡ accepted rule
        → Reads tokens rules
        → Reads (token ∷ tokens) (rule ∷ rules)

  parse_tokens-accepted :
      (tokens : List Text) (rules : List Rule)
      → parse_tokens parse_ip parse_v6 tokens ≡ accepted rules
      → Reads tokens rules
  unfolding parse_tokens
  parse_tokens-accepted [] [] h = no_token
  parse_tokens-accepted [] (r ∷ rules) h = absurd (ground arith)
  parse_tokens-accepted (t ∷ tokens) [] h = absurd (ground arith)
  parse_tokens-accepted (t ∷ tokens) (r ∷ rules) h =
      one_more (ground arith) (parse_tokens-accepted tokens rules (ground arith))

  parse_tokens-Reads :
      {tokens : List Text} {rules : List Rule}
      → Reads tokens rules
      → parse_tokens parse_ip parse_v6 tokens ≡ accepted rules
  unfolding parse_tokens
  parse_tokens-Reads no_token = refl
  parse_tokens-Reads (one_more e h) = ground (arith, e, parse_tokens-Reads h)

  token_not_empty :
      (token : Text) {rule : Rule}
      → parse_token parse_ip parse_v6 token ≡ accepted rule
      → is_empty_text token ≡ false
  unfolding parse_token
  token_not_empty [] h = absurd (ground arith)
  token_not_empty (c ∷ cs) h = refl

  Reads-not_empty :
      {tokens : List Text} {rules : List Rule}
      → Reads tokens rules
      → (length tokens == 1 && first_is_empty tokens) ≡ false
  Reads-not_empty no_token = refl
  Reads-not_empty (one_more {token = token} e h) = ground (arith, token_not_empty token e)

  -- A list is accepted iff every token between its commas, trimmed, is accepted, also after a `*`;
  -- it then has the rules of the tokens in their order, and keeps its text.
  pub read_clients_iff :
      (trim : Text → Text) (source : Text) (list : AllowedClients)
      → (read_clients parse_ip parse_v6 trim source ≡ accepted list)
        ↔ ((list.source ≡ source) × Reads (map trim (split 44 source)) list.rules)
  unfolding read_clients parse
  read_clients_iff trim source list = (
    λ h. (
      ground arith,
      parse_tokens-accepted (map trim (split 44 source)) list.rules (ground arith),
    ),
    λ p. ground (arith, parse_tokens-Reads p.1, Reads-not_empty p.1, p.0),
  )
