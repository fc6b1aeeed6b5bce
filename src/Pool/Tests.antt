-- ===== src/Pool/Tests.antt =====
-- A small pool: a bridge is a number, and its identity that number.
use tor_socks.Base.{
  ℕ, zero, suc, ◌≡◌, refl, ap, ◌↔◌, Bool, false, Option, none, some, List, [], ◌∷◌, length,
  if◌then◌else◌, ◌==◌, ltb, take,
}
use tor_socks.OrdMap.{nat_ord}
use tor_socks.OrdMap.Text.{Text, text_ord}
use tor_socks.Pool.Candidates.{CandidatePool, load, save, prioritize, take_transport}
use tor_socks.Pool.Invariant.{IsPool, load-IsPool}
use tor_socks.Pool.Calls.{
  Call, calls, merging, taking, prioritizing, removing, rotating, calls-IsPool,
}
use tor_socks.Pool.Moved.{parted, IsFresh, prioritize-parted}
use tor_socks.Pool.Saved.{IsLine, IsPrinter, load-save}
use tor_socks.Pool.Taken.{Interleaves, eligible, take_transport-Interleaves}

abbrev key_of : ℕ → ℕ
key_of b = b

-- A number is written as `b` and as many digits `1`.
abbrev ones : ℕ → Text
ones zero = []
ones (suc n) = 49 ∷ ones n

abbrev print_bridge : ℕ → Text
print_bridge n = 98 ∷ ones n

abbrev parse_bridge : Text → Option ℕ
parse_bridge [] = none
parse_bridge (c ∷ cs) = if c == 98 then some (length cs) else none

abbrev same_text : Text → Text
same_text s = s

-- A number below ten is of the transport `o`.
abbrev transport : ℕ → Option Text
transport b = if ltb b 10 then some (111 ∷ []) else none

ones-IsLine : (n : ℕ) → IsLine (ones n)
ones-IsLine zero = tt
ones-IsLine (suc n) = (refl, ones-IsLine n)

length-ones : (n : ℕ) → length (ones n) ≡ n
length-ones zero = refl
length-ones (suc n) = ap suc (length-ones n)

printer : IsPrinter same_text parse_bridge print_bridge
printer = record {
  one_line = λ b. (refl, ones-IsLine b);
  is_kept = λ b. refl;
  is_read = λ b. ap some (length-ones b);
}

-- The bridges 3, 12 and 3 again, and a comment.
abbrev three_lines : Text
three_lines = 98 ∷ 49 ∷ 49 ∷ 49 ∷ 10 ∷ 35 ∷ 10 ∷ 98 ∷ 49 ∷ 10 ∷ 98 ∷ 49 ∷ 49 ∷ 49 ∷ 10 ∷ []

abbrev history : List (Call ℕ ℕ)
history =
    merging (4 ∷ 11 ∷ 4 ∷ []) (11 ∷ [])
    ∷ prioritizing (4 ∷ []) none
    ∷ taking 1 none
    ∷ merging (4 ∷ 5 ∷ []) []
    ∷ removing (3 ∷ 9 ∷ [])
    ∷ rotating (1 ∷ [])
    ∷ []

calls-IsPool_example :
    IsPool key_of (calls key_of transport history (load key_of same_text parse_bridge three_lines))
calls-IsPool_example = calls-IsPool key_of transport same_text parse_bridge three_lines history

abbrev small_pool : CandidatePool ℕ ℕ
small_pool = record { bridges = 3 ∷ 12 ∷ 4 ∷ []; keys = 12 ∷ 4 ∷ 3 ∷ [] }

prioritize-parted_example :
    (late : ℕ → Bool) × ((b : ℕ)
      → (late b ≡ false) ↔ IsFresh key_of transport (4 ∷ 12 ∷ []) (some (111 ∷ [])) b)
    × ((prioritize key_of transport (4 ∷ 12 ∷ []) (some (111 ∷ [])) small_pool).bridges
        ≡ parted late (3 ∷ 12 ∷ 4 ∷ []))
prioritize-parted_example =
    prioritize-parted key_of transport (4 ∷ 12 ∷ []) (some (111 ∷ [])) small_pool

take_transport-Interleaves_example :
    ((take_transport key_of transport 1 (some (111 ∷ [])) small_pool).0
      ≡ take 1 (eligible key_of transport (some (111 ∷ [])) (3 ∷ 12 ∷ 4 ∷ [])))
    × Interleaves
        (take_transport key_of transport 1 (some (111 ∷ [])) small_pool).0
        (take_transport key_of transport 1 (some (111 ∷ [])) small_pool).1.bridges
        (3 ∷ 12 ∷ 4 ∷ [])
take_transport-Interleaves_example =
    take_transport-Interleaves key_of transport 1 (some (111 ∷ [])) small_pool

abbrev read_pool : CandidatePool ℕ ℕ
read_pool = load key_of same_text parse_bridge three_lines

load-save_example :
    (load key_of same_text parse_bridge (save (35 ∷ 32 ∷ []) print_bridge read_pool)).bridges
    ≡ read_pool.bridges
load-save_example =
    load-save key_of same_text parse_bridge print_bridge printer (35 ∷ 32 ∷ []) read_pool
      (refl, (refl, tt)) refl refl (load-IsPool key_of same_text parse_bridge three_lines)
