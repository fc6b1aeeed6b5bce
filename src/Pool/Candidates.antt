-- ===== src/Pool/Candidates.antt =====
-- apps/socks5-proxy/src/bridges/candidate_pool.rs: the pool, its operations and its file. A bridge
-- line, its identity, its text and its parser are other crates', and parameters.
use tor_socks.Base.{
  take, drop, keep_if, Ordering, ℕ, zero, suc, ◌+◌, Bool, true, false, not, Option, none, some,
  List, [], ◌∷◌, ◌++◌, map, length, if◌then◌else◌, ◌==◌, ltb,
}
use tor_socks.OrdMap.{KeyOrd, key_eq}
use tor_socks.OrdMap.Text.{Text, text_ord}
use tor_socks.Best.{sort}
use tor_socks.Pool.KeySet.{has, without}

-- In the order of insertion, with the identities of the bridges.
pub record CandidatePool (B K : Type 0) : Type 0 where
  pub bridges : List B
  pub keys : List K

-- `false` before `true`.
abbrev pub bool_cmp : Bool → Bool → Ordering
bool_cmp false true = Ordering.lt
bool_cmp true false = Ordering.gt
bool_cmp _ _ = Ordering.eq

-- Lines end at a line feed; a carriage return before it is left to `trim`.
unfoldable pub lines : Text → List Text
lines [] = []
lines (c ∷ cs) =
    let rest = lines cs in
    if c == 10
    then [] ∷ rest
    else elim rest [ [] ↦ (c ∷ []) ∷ [] | line ∷ others ↦ (c ∷ line) ∷ others ]

-- A blank line or a comment.
abbrev pub is_skipped : Text → Bool
is_skipped [] = true
is_skipped (c ∷ cs) = c == 35

unfoldable pub body_text {ℓ} : {B : Type ℓ} → (B → Text) → List B → Text
body_text print [] = []
body_text print (b ∷ bridges) = print b ++ (10 ∷ body_text print bridges)

-- The text of the file.
unfoldable pub save : {B K : Type 0} → Text → (B → Text) → CandidatePool B K → Text
unfolding body_text
save header print pool = header ++ (10 ∷ 10 ∷ body_text print pool.bridges)

module _ {B K : Type 0} ⦃o : KeyOrd K⦄ (key_of : B → K) where
  abbrev pub empty_pool : CandidatePool B K
  empty_pool = record { bridges = []; keys = [] }

  unfoldable pub push_unique : B → CandidatePool B K → Bool × CandidatePool B K
  push_unique b pool =
      if has (key_of b) pool.keys
      then (false, pool)
      else (true, record { bridges = pool.bridges ++ (b ∷ []); keys = key_of b ∷ pool.keys })

  unfoldable pub merge : List B → List K → CandidatePool B K → ℕ × CandidatePool B K
  unfolding push_unique
  merge [] exclude pool = (0, pool)
  merge (b ∷ fetched) exclude pool =
      let (is_new, pool') = if has (key_of b) exclude then (false, pool) else push_unique b pool in
      let (added, pool'') = merge fetched exclude pool' in
      (if is_new then added + 1 else added, pool'')

  -- `keys.remove` of each bridge.
  unfoldable pub forget : List B → List K → List K
  forget [] keys = keys
  forget (b ∷ taken) keys = forget taken (without (key_of b) keys)

  unfoldable pub take_first : ℕ → CandidatePool B K → List B × CandidatePool B K
  unfolding forget
  take_first n pool =
      let taken = take n pool.bridges in
      (taken, record { bridges = drop n pool.bridges; keys = forget taken pool.keys })

  -- The scan for `n` matches: those taken, and what stays.
  unfoldable pub split_matches : (B → Bool) → ℕ → List B → List B × List B
  split_matches is_match zero bridges = ([], bridges)
  split_matches is_match (suc n) [] = ([], [])
  split_matches is_match (suc n) (b ∷ bridges) =
      let found = is_match b in
      let rest = split_matches is_match (if found then n else suc n) bridges in
      if found then (b ∷ rest.0, rest.1) else (rest.0, b ∷ rest.1)

  unfoldable pub has_transport : (B → Option Text) → Text → B → Bool
  has_transport transport name b = elim (transport b) [ none ↦ false | some t ↦ key_eq t name ]

  unfoldable pub take_transport :
      (B → Option Text) → ℕ → Option Text → CandidatePool B K → List B × CandidatePool B K
  unfolding take_first split_matches forget has_transport
  take_transport transport n none pool = take_first n pool
  take_transport transport n (some name) pool =
      let (taken, kept) = split_matches (has_transport transport name) n pool.bridges in
      (taken, record { bridges = kept; keys = forget taken pool.keys })

  -- The identities of the fresh bridges of the transport.
  unfoldable pub fresh_keys : (B → Option Text) → List B → Option Text → List K
  unfolding has_transport
  fresh_keys transport fresh none = map key_of fresh
  fresh_keys transport fresh (some name) = map key_of (keep_if (has_transport transport name) fresh)

  unfoldable pub prioritize :
      (B → Option Text) → List B → Option Text → CandidatePool B K → CandidatePool B K
  unfolding fresh_keys
  prioritize transport fresh name pool =
      let found = fresh_keys transport fresh name in
      record pool {
        bridges =
            sort (λ a b. bool_cmp (not (has (key_of a) found)) (not (has (key_of b) found)))
              pool.bridges;
      }

  -- The identities that are removed, and the keys that are left.
  unfoldable pub doom : List B → List K → List K × List K
  doom [] keys = ([], keys)
  doom (b ∷ bridges) keys =
      let found = has (key_of b) keys in
      let rest = doom bridges (if found then without (key_of b) keys else keys) in
      (if found then key_of b ∷ rest.0 else rest.0, rest.1)

  unfoldable pub remove_all : List B → CandidatePool B K → ℕ × CandidatePool B K
  unfolding doom
  remove_all bridges pool =
      let (doomed, keys) = doom bridges pool.keys in
      (
        length doomed,
        record {
          bridges =
              if ltb 0 (length doomed)
              then keep_if (λ b. not (has (key_of b) doomed)) pool.bridges
              else pool.bridges;
          keys = keys;
        },
      )

  unfoldable pub rotate_to_back : List B → CandidatePool B K → ℕ × CandidatePool B K
  rotate_to_back bridges pool =
      let requested = map key_of bridges in
      let rotated = keep_if (λ b. has (key_of b) requested) pool.bridges in
      (
        length rotated,
        record pool {
          bridges = keep_if (λ b. not (has (key_of b) requested)) pool.bridges ++ rotated;
        },
      )

  unfoldable pub load_lines :
      (Text → Text) → (Text → Option B) → List Text → CandidatePool B K → CandidatePool B K
  unfolding push_unique
  load_lines trim parse [] pool = pool
  load_lines trim parse (raw ∷ others) pool = load_lines trim parse others (
      if is_skipped (trim raw)
      then pool
      else elim (parse (trim raw)) [ none ↦ pool | some b ↦ (push_unique b pool).1 ])

  unfoldable pub load : (Text → Text) → (Text → Option B) → Text → CandidatePool B K
  unfolding load_lines lines
  load trim parse text = load_lines trim parse (lines text) empty_pool
