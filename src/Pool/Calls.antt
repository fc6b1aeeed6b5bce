-- ===== src/Pool/Calls.antt =====
-- apps/socks5-proxy/src/bridges/candidate_pool.rs: any history of calls.
use tor_socks.Base.{ℕ, Option, List, [], ◌∷◌}
use tor_socks.OrdMap.{KeyOrd}
use tor_socks.OrdMap.Text.{Text}
use tor_socks.Pool.Candidates.{
  CandidatePool, merge, take_transport, prioritize, remove_all, rotate_to_back, load,
}
use tor_socks.Pool.Invariant.{
  IsPool, merge-IsPool, take_transport-IsPool, prioritize-IsPool, remove_all-IsPool,
  rotate_to_back-IsPool, load-IsPool,
}

-- The calls that change a pool.
pub data Call (B K : Type 0) : Type 0 where
  merging : List B → List K → Call B K
  taking : ℕ → Option Text → Call B K
  prioritizing : List B → Option Text → Call B K
  removing : List B → Call B K
  rotating : List B → Call B K

module _ {B K : Type 0} ⦃o : KeyOrd K⦄ (key_of : B → K) (transport : B → Option Text) where
  unfoldable pub call : Call B K → CandidatePool B K → CandidatePool B K
  call (merging fetched exclude) pool = (merge key_of fetched exclude pool).1
  call (taking n name) pool = (take_transport key_of transport n name pool).1
  call (prioritizing fresh name) pool = prioritize key_of transport fresh name pool
  call (removing bridges) pool = (remove_all key_of bridges pool).1
  call (rotating bridges) pool = (rotate_to_back key_of bridges pool).1

  unfoldable pub calls : List (Call B K) → CandidatePool B K → CandidatePool B K
  unfolding call
  calls [] pool = pool
  calls (c ∷ history) pool = calls history (call c pool)

  call-IsPool :
      (c : Call B K) (pool : CandidatePool B K) → IsPool key_of pool → IsPool key_of (call c pool)
  unfolding call
  call-IsPool (merging fetched exclude) pool h = merge-IsPool key_of fetched exclude pool h
  call-IsPool (taking n name) pool h = take_transport-IsPool key_of transport n name pool h
  call-IsPool (prioritizing fresh name) pool h =
      prioritize-IsPool key_of transport fresh name pool h
  call-IsPool (removing bridges) pool h = remove_all-IsPool key_of bridges pool h
  call-IsPool (rotating bridges) pool h = rotate_to_back-IsPool key_of bridges pool h

  calls-keep :
      (history : List (Call B K)) (pool : CandidatePool B K)
      → IsPool key_of pool
      → IsPool key_of (calls history pool)
  unfolding calls
  calls-keep [] pool h = h
  calls-keep (c ∷ history) pool h = calls-keep history (call c pool) (call-IsPool c pool h)

  -- A pool that was read from any text, and after any calls, holds one bridge at most for an
  -- identity, and its set of identities is that of its bridges.
  pub calls-IsPool :
      (trim : Text → Text) (parse : Text → Option B) (text : Text) (history : List (Call B K))
      → IsPool key_of (calls history (load key_of trim parse text))
  calls-IsPool trim parse text history =
      calls-keep history (load key_of trim parse text) (load-IsPool key_of trim parse text)
