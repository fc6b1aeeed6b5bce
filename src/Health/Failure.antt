-- ===== src/Health/Failure.antt =====
-- apps/socks5-proxy/src/server/server.rs: the stage and the kind of a failed connection.
use tor_socks.Base.{
  ◌≡◌, ◌↔◌, ◌⊎◌, inl, inr, Bool, true, false, ◌||◌, List, [], ◌∷◌, arith, if◌then◌else◌, Bool-cases,
}
use tor_socks.OrdMap.{key_eq}
use tor_socks.OrdMap.Text.{Text, text_ord}
use tor_socks.Health.Counters.{
  ConnErrorKind, client, tor, relay, other, ConnStage, handshake, connect, in_relay, other_stage,
}

-- `std::io::ErrorKind`, as far as it matters.
pub data IoErrorKind : Type 0 where
  connection_reset : IoErrorKind
  connection_aborted : IoErrorKind
  broken_pipe : IoErrorKind
  unexpected_eof : IoErrorKind
  another_kind : IoErrorKind

-- What a cause can be taken back to.
pub data CauseType : Type 0 where
  io_error : IoErrorKind → CauseType
  tor_connect : CauseType
  another_type : CauseType

-- A cause in the chain of an error: its text and its type.
pub record Cause : Type 0 where
  pub shown : Text
  pub of_type : CauseType

-- `SOCKS5 handshake`, `tor connect`, `upstream connect` and `relay`.
abbrev pub stage_handshake : Text
stage_handshake =
    83 ∷ 79 ∷ 67 ∷ 75 ∷ 83 ∷ 53 ∷ 32 ∷ 104 ∷ 97 ∷ 110 ∷ 100 ∷ 115 ∷ 104 ∷ 97 ∷ 107 ∷ 101 ∷ []

abbrev pub stage_connect_tor : Text
stage_connect_tor = 116 ∷ 111 ∷ 114 ∷ 32 ∷ 99 ∷ 111 ∷ 110 ∷ 110 ∷ 101 ∷ 99 ∷ 116 ∷ []

abbrev pub stage_connect_upstream : Text
stage_connect_upstream =
    117 ∷ 112 ∷ 115 ∷ 116 ∷ 114 ∷ 101 ∷ 97 ∷ 109 ∷ 32 ∷ 99 ∷ 111 ∷ 110 ∷ 110 ∷ 101 ∷ 99 ∷ 116 ∷ []

abbrev pub stage_relay : Text
stage_relay = 114 ∷ 101 ∷ 108 ∷ 97 ∷ 121 ∷ []

unfoldable pub any_cause : (Cause → Bool) → List Cause → Bool
any_cause test [] = false
any_cause test (c ∷ chain) = test c || any_cause test chain

unfoldable pub is_relay : Cause → Bool
is_relay c = key_eq c.shown stage_relay

unfoldable pub is_handshake : Cause → Bool
is_handshake c = key_eq c.shown stage_handshake

unfoldable pub is_connect : Cause → Bool
is_connect c = key_eq c.shown stage_connect_tor || key_eq c.shown stage_connect_upstream

abbrev pub dropish : CauseType → Bool
dropish (io_error connection_reset) = true
dropish (io_error connection_aborted) = true
dropish (io_error broken_pipe) = true
dropish (io_error unexpected_eof) = true
dropish _ = false

unfoldable pub is_dropish : Cause → Bool
is_dropish c = dropish c.of_type

abbrev pub tor_connects : CauseType → Bool
tor_connects tor_connect = true
tor_connects _ = false

unfoldable pub is_tor_connect : Cause → Bool
is_tor_connect c = tor_connects c.of_type

unfoldable pub stage_of : List Cause → ConnStage
stage_of chain =
    if any_cause is_relay chain
    then in_relay
    else if any_cause is_handshake chain
    then handshake
    else if any_cause is_connect chain
    then connect
    else other_stage

abbrev pub kind_at : ConnStage → Bool → ConnErrorKind
kind_at handshake drop = client
kind_at in_relay drop = if drop then relay else other
kind_at connect drop = other
kind_at other_stage drop = if drop then client else other

unfoldable pub classify_conn_failure : List Cause → ConnStage × ConnErrorKind
unfolding stage_of
classify_conn_failure chain = (
  stage_of chain,
  if any_cause is_tor_connect chain
      then tor
      else kind_at (stage_of chain) (any_cause is_dropish chain),
)

-- Some cause of the chain passes the test.
abbrev pub Has : (Cause → Bool) → List Cause → Type 0
Has test [] = ⊥
Has test (c ∷ chain) = (test c ≡ true) ⊎ Has test chain

any_cause_iff :
    (test : Cause → Bool) (chain : List Cause) → (any_cause test chain ≡ true) ↔ Has test chain
unfolding any_cause
any_cause_iff test [] = (λ h. ground arith, λ h. absurd h)
any_cause_iff test (c ∷ chain) =
    let rest = any_cause_iff test chain in
    (
      λ h. elim (Bool-cases (test c)) [ inl e ↦ inl e | inr e ↦ inr (rest.0 (ground (arith, e))) ],
      λ h. elim h [ inl e ↦ ground (arith, e) | inr k ↦ ground (arith, rest.1 k) ],
    )

-- What each stage and each kind says of the causes.
pub record IsClassified (chain : List Cause) (answer : ConnStage × ConnErrorKind) : Type 0 where
  pub at_relay : (answer.0 ≡ in_relay) ↔ Has is_relay chain
  pub at_handshake : (answer.0 ≡ handshake) ↔ (Has is_handshake chain × ¬ Has is_relay chain)
  pub at_connect :
      (answer.0 ≡ connect)
      ↔ (Has is_connect chain × ¬ Has is_handshake chain × ¬ Has is_relay chain)
  pub by_tor : (answer.1 ≡ tor) ↔ Has is_tor_connect chain
  pub by_relay :
      (answer.1 ≡ relay)
      ↔ (¬ Has is_tor_connect chain × (answer.0 ≡ in_relay) × Has is_dropish chain)
  pub by_client : (answer.1 ≡ client) ↔ (
      ¬ Has is_tor_connect chain
      × ((answer.0 ≡ handshake) ⊎ ((answer.0 ≡ other_stage) × Has is_dropish chain)))

-- A failure is at the relay, else at the handshake, else at the connection, if a cause has the tag
-- of that stage. It is Tor's iff a cause is a failed Tor connection; else it is the relay's iff it
-- is at the relay with a dropped connection among the causes, and the client's iff it is at the
-- handshake, or at no tagged stage with a dropped connection among the causes.
pub classify_conn_failure-IsClassified :
    (chain : List Cause) → IsClassified chain (classify_conn_failure chain)
unfolding classify_conn_failure
classify_conn_failure-IsClassified chain =
    let r = any_cause_iff is_relay chain in
    let h = any_cause_iff is_handshake chain in
    let c = any_cause_iff is_connect chain in
    let t = any_cause_iff is_tor_connect chain in
    let d = any_cause_iff is_dropish chain in
    record {
      at_relay = ground (arith, r);
      at_handshake = ground (arith, r, h);
      at_connect = ground (arith, r, h, c);
      by_tor = ground (arith, t, d);
      by_relay = ground (arith, t, d);
      by_client = ground (arith, t, d);
    }
