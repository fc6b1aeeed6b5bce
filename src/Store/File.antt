-- ===== src/Store/File.antt =====
-- packages/bridge-store/src/persistence.rs: the reading of the store's file. The parsers of bridge
-- lines, times and numbers and the standard library's calls on strings are parameters.
use tor_socks.Base.{
  ℕ, ◌*◌, Bool, true, false, Option, none, some, List, [], ◌∷◌, map, length, if◌then◌else◌, ◌==◌,
  keep_if,
}
use tor_socks.OrdMap.{KeyOrd, key_eq, insert}
use tor_socks.OrdMap.Text.{Text, text_ord}
use tor_socks.Acl.Parser.{split}
use tor_socks.Store.Entry.{Entry, BridgeStore}
use tor_socks.Store.SourceText.{decode_source}

pub record Meta : Type 0 where
  pub last_ok : Option ℕ
  pub last_attempt : ℕ
  pub last_latency : ℕ
  pub fails : ℕ
  pub ok_count : ℕ
  pub channel_ok_count : ℕ
  pub last_channel_ok : Option ℕ
  pub verified_count : ℕ
  pub last_verified : Option ℕ
  pub last_verification_attempt : Option ℕ
  pub circuit_fails : ℕ
  pub last_circuit_observation : ℕ
  pub sources : List (Text × Unit {0})

-- The names of the fields, with their equals signs.
abbrev pub fails_mark : Text
fails_mark = 102 ∷ 97 ∷ 105 ∷ 108 ∷ 115 ∷ 61 ∷ []

abbrev pub seen_mark : Text
seen_mark = 115 ∷ 101 ∷ 101 ∷ 110 ∷ 61 ∷ []

abbrev pub attempt_mark : Text
attempt_mark = 97 ∷ 116 ∷ 116 ∷ 101 ∷ 109 ∷ 112 ∷ 116 ∷ 61 ∷ []

abbrev pub ok_mark : Text
ok_mark = 111 ∷ 107 ∷ 61 ∷ []

abbrev pub latency_mark : Text
latency_mark = 108 ∷ 97 ∷ 116 ∷ 101 ∷ 110 ∷ 99 ∷ 121 ∷ 61 ∷ []

abbrev pub chseen_mark : Text
chseen_mark = 99 ∷ 104 ∷ 115 ∷ 101 ∷ 101 ∷ 110 ∷ 61 ∷ []

abbrev pub chok_mark : Text
chok_mark = 99 ∷ 104 ∷ 111 ∷ 107 ∷ 61 ∷ []

abbrev pub evseen_mark : Text
evseen_mark = 101 ∷ 118 ∷ 115 ∷ 101 ∷ 101 ∷ 110 ∷ 61 ∷ []

abbrev pub evok_mark : Text
evok_mark = 101 ∷ 118 ∷ 111 ∷ 107 ∷ 61 ∷ []

abbrev pub evtry_mark : Text
evtry_mark = 101 ∷ 118 ∷ 116 ∷ 114 ∷ 121 ∷ 61 ∷ []

abbrev pub cfails_mark : Text
cfails_mark = 99 ∷ 102 ∷ 97 ∷ 105 ∷ 108 ∷ 115 ∷ 61 ∷ []

abbrev pub cobs_mark : Text
cobs_mark = 99 ∷ 111 ∷ 98 ∷ 115 ∷ 61 ∷ []

abbrev pub srcenc_mark : Text
srcenc_mark = 115 ∷ 114 ∷ 99 ∷ 101 ∷ 110 ∷ 99 ∷ 61 ∷ []

abbrev pub src_mark : Text
src_mark = 115 ∷ 114 ∷ 99 ∷ 61 ∷ []

abbrev milliseconds : Text
milliseconds = 109 ∷ 115 ∷ []

unfoldable pub strip_prefix : Text → Text → Option Text
strip_prefix [] s = some s
strip_prefix (x ∷ p) [] = none
strip_prefix (x ∷ p) (c ∷ s) = let rest = strip_prefix p s in if x == c then rest else none

unfoldable pub strip_suffix : Text → Text → Option Text
strip_suffix p [] = if length p == 0 then some [] else none
strip_suffix p (c ∷ s) =
    let rest = strip_suffix p s in
    if key_eq p (c ∷ s) then some [] else elim rest [ none ↦ none | some t ↦ some (c ∷ t) ]

-- `str::split_once` of a space.
unfoldable pub split_once : Text → Option (Text × Text)
split_once [] = none
split_once (c ∷ s) =
    let rest = split_once s in
    if c == 32 then some ([], s) else elim rest [ none ↦ none | some (a, b) ↦ some (c ∷ a, b) ]

-- The branch for a field, if the token is one.
abbrev pub field : Option Text → (Text → Option Meta) → Option Meta → Option Meta
field none f others = others
field (some v) f others = f v

-- A failed parse is the end of the parser.
abbrev pub set {ℓ} : {A : Type ℓ} → Option A → (A → Meta) → Option Meta
set none f = none
set (some a) f = some (f a)

-- A set of labels from a list.
unfoldable pub collect_labels : List Text → List (Text × Unit {0})
collect_labels [] = []
collect_labels (label ∷ labels) = insert label tt (collect_labels labels)

abbrev is_text : Text → Bool
is_text [] = false
is_text (c ∷ s) = true

-- Times are nanoseconds, and so is `Duration::from_millis`.
abbrev from_millis : ℕ → ℕ
from_millis ms = ms * 1_000_000

module _ (epoch : ℕ) (parse_u32 : Text → Option ℕ) (parse_u64 : Text → Option ℕ)
    (parse_time : Text → Option ℕ) (lossy : Text → Text) (trim : Text → Text)
    (split_whitespace : Text → List Text) where
  -- `Meta::default`
  abbrev pub default_meta : Meta
  default_meta = record {
    last_ok = none;
    last_attempt = epoch;
    last_latency = 0;
    fails = 0;
    ok_count = 0;
    channel_ok_count = 0;
    last_channel_ok = none;
    verified_count = 0;
    last_verified = none;
    last_verification_attempt = none;
    circuit_fails = 0;
    last_circuit_observation = epoch;
    sources = [];
  }

  -- A time, or a dash for none.
  unfoldable pub optional_time : Text → Option (Option ℕ)
  optional_time v =
      if key_eq v (45 ∷ [])
      then some none
      else elim (parse_time v) [ none ↦ none | some t ↦ some (some t) ]

  unfoldable pub parse_latency : Text → Option ℕ
  unfolding strip_suffix
  parse_latency v = elim (strip_suffix milliseconds v) [
    | none ↦ none
    | some ms ↦ elim (parse_u64 ms) [ none ↦ none | some n ↦ some (from_millis n) ]
  ]

  -- The labels of an encoded list; `collect_labels` alone reads the list of an old file.
  unfoldable pub decoded : Text → List (Text × Unit {0})
  unfolding collect_labels
  decoded v = collect_labels (map (λ s. lossy (decode_source s)) (keep_if is_text (split 44 v)))

  -- One token of the comment; others are ignored.
  unfoldable pub parse_field : Text → Meta → Option Meta
  unfolding strip_prefix optional_time parse_latency collect_labels decoded
  parse_field tok meta =
      field (strip_prefix fails_mark tok) (λ v. set (parse_u32 v) (λ n. record meta { fails = n }))
        (field (strip_prefix seen_mark tok)
          (λ v. set (parse_u32 v) (λ n. record meta { ok_count = n }))
          (field (strip_prefix attempt_mark tok)
            (λ v. set (parse_time v) (λ t. record meta { last_attempt = t }))
            (field (strip_prefix ok_mark tok)
              (λ v. set (optional_time v) (λ t. record meta { last_ok = t }))
              (field (strip_prefix latency_mark tok)
                (λ v. set (parse_latency v) (λ d. record meta { last_latency = d }))
                (field (strip_prefix chseen_mark tok)
                  (λ v. set (parse_u32 v) (λ n. record meta { channel_ok_count = n }))
                  (field (strip_prefix chok_mark tok)
                    (λ v. set (optional_time v) (λ t. record meta { last_channel_ok = t }))
                    (field (strip_prefix evseen_mark tok)
                      (λ v. set (parse_u32 v) (λ n. record meta { verified_count = n }))
                      (field (strip_prefix evok_mark tok)
                        (λ v. set (optional_time v) (λ t. record meta { last_verified = t }))
                        (field (strip_prefix evtry_mark tok)
                          (λ v.
                            set (parse_time v)
                              (λ t. record meta { last_verification_attempt = some t }))
                          (field (strip_prefix cfails_mark tok)
                            (λ v. set (parse_u32 v) (λ n. record meta { circuit_fails = n }))
                            (field (strip_prefix cobs_mark tok)
                              (λ v.
                                set (parse_time v)
                                  (λ t. record meta { last_circuit_observation = t }))
                              (field (strip_prefix srcenc_mark tok)
                                (λ v. some (record meta { sources = decoded v }))
                                (field (strip_prefix src_mark tok)
                                  (λ v. some (record meta {
                                    sources = collect_labels (keep_if is_text (split 44 v));
                                  }))
                                  (some meta))))))))))))))

  unfoldable pub parse_fields : List Text → Meta → Option Meta
  unfolding parse_field
  parse_fields [] meta = some meta
  parse_fields (tok ∷ tokens) meta = elim (parse_field tok meta) [
    | none ↦ none
    | some meta' ↦ parse_fields tokens meta'
  ]

  -- The old format: a time and a latency.
  unfoldable pub parse_legacy : Text → Option Meta
  unfolding split_once strip_prefix parse_latency
  parse_legacy s = elim (split_once s) [
    | none ↦ none
    | some (when_part, rest) ↦ elim (parse_time when_part) [
      | none ↦ none
      | some at ↦ elim (strip_prefix latency_mark (trim rest)) [
        | none ↦ none
        | some v ↦ set (parse_latency v) (λ d. record default_meta {
          last_ok = some at;
          last_attempt = at;
          last_latency = d;
          ok_count = 1;
          last_circuit_observation = at;
        })
      ]
    ]
  ]

  unfoldable pub parse_meta_comment : Text → Option Meta
  unfolding strip_prefix parse_fields parse_legacy
  parse_meta_comment s = elim (strip_prefix fails_mark s) [
    | some v ↦ parse_fields (split_whitespace s) default_meta
    | none ↦ parse_legacy s
  ]

  module _ {L K : Type 0} ⦃o : KeyOrd K⦄ (key_of : L → K) (parse_bridge : Text → Option L)
      (usable_for_tor : L → Bool) where
    abbrev pub entry_of : L → Meta → Entry L Text
    entry_of b meta = record {
      bridge = b;
      last_ok = meta.last_ok;
      last_attempt = meta.last_attempt;
      last_latency = meta.last_latency;
      fails = meta.fails;
      ok_count = meta.ok_count;
      channel_ok_count = meta.channel_ok_count;
      last_channel_ok = meta.last_channel_ok;
      verified_count = meta.verified_count;
      last_verified = meta.last_verified;
      last_verification_attempt = meta.last_verification_attempt;
      circuit_fails = meta.circuit_fails;
      last_circuit_observation = meta.last_circuit_observation;
      sources = meta.sources;
    }

    -- The entries, and the comment that waits for its bridge.
    abbrev pub Loading : Type 0
    Loading = List (K × Entry L Text) × Option Meta

    unfoldable pub or_default : Option Meta → Meta
    or_default none = default_meta
    or_default (some meta) = meta

    -- A line that is neither empty nor a comment.
    unfoldable pub load_bridge : Text → Loading → Loading
    unfolding or_default
    load_bridge line (entries, pending) = elim (parse_bridge line) [
      | none ↦ (entries, none)
      | some b ↦
          if usable_for_tor b
          then (insert (key_of b) (entry_of b (or_default pending)) entries, none)
          else (entries, none)
    ]

    unfoldable pub load_line : Text → Loading → Loading
    unfolding load_bridge
    load_line [] (entries, pending) = (entries, pending)
    load_line (c ∷ line) (entries, pending) = elim (strip_prefix (35 ∷ 32 ∷ []) (c ∷ line)) [
      | some rest ↦ elim (parse_meta_comment rest) [
        | some meta ↦ (entries, some meta)
        | none ↦ (entries, pending)
      ]
      | none ↦ if c == 35 then (entries, pending) else load_bridge (c ∷ line) (entries, pending)
    ]

    unfoldable pub load_all : List Text → Loading → Loading
    unfolding load_line
    load_all [] loading = loading
    load_all (raw ∷ lines) loading = load_all lines (load_line (trim raw) loading)

    -- A store of the lines of a file; a missing file has none.
    unfoldable pub load_store : List ℕ → List Text → BridgeStore L K Text
    unfolding load_all
    load_store path lines = record { path = path; entries = (load_all lines ([], none)).0 }
