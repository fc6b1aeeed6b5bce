-- ===== src/Store/Tests.antt =====
-- A small health store, runs of the model on it, and the store's theorems at concrete inputs.
-- Bridge lines, keys and source labels are numbers here; a line is its own key.
use tor_socks.Store.Prune.{is_below, prune_lem}
use tor_socks.Store.SourceText.{
  IsChar, encode_source, decode_source, bytes_of, decode_source-encode_source,
}
use tor_socks.OrdMap.Text.{Text, text_ord, text_cmp}
use tor_socks.Base.{
  ℕ, ◌+◌, ◌-◌, ◌*◌, ◌≤◌, ◌<◌, ◌≡◌, refl, Bool, true, not, ◌&&◌, Option, none, some, List, [], ◌∷◌,
  map, arith, length, if◌then◌else◌, All, ◌==◌, ltb, leb, u32_max, compare, min, take, keep_if,
}
use tor_socks.OrdMap.{key_eq, nat_ord, lookup, insert, remove}
use tor_socks.Best.{BinaryHeap, HeapLaws, take_best, sort}
use tor_socks.Best.Order.{compare-IsPreorder}
use tor_socks.Best.Selection.{TellsApart, take_best_lem}
use tor_socks.Best.Scan.{take_greatest, scan_heap, scan_heap-HeapLaws}
use tor_socks.Store.Entry.{Entry, BridgeStore}
use tor_socks.Store.Notes.{probe_round, permanent_failure, source_credit, run}
use tor_socks.Store.Valid.{IsValid, run-IsValid}
use tor_socks.Store.Observe.{
  note_probe_round, probe_miss, record_alive, note_failures, prune, contains_key, note_failure_at,
  record_at,
}
use tor_socks.Store.Outcome.{spare, note_probe_round-missed, note_probe_round-Answered}
use tor_socks.Store.Round.{was_probed}
use tor_socks.Store.Answers.{answers, answered}
use tor_socks.Store.RateLimit.{failures_at, failures_at-rate}
use tor_socks.Store.Rank.{Ranked, due_cmp, ranked_cmp, healthiest_among, allowed}
use tor_socks.Store.Ranking.{ranked_cmp-IsPreorder, admitted}
use tor_socks.Acl.Parser.{split}
use tor_socks.Store.File.{
  load_store, load_all, load_line, load_bridge, or_default, strip_prefix, parse_meta_comment,
  parse_fields, parse_field,
}
use tor_socks.Store.Loaded.{load_store-IsValid}
use tor_socks.Store.Served.{IsServable, healthiest_among_serves}

abbrev self : ℕ → ℕ
self b = b

abbrev bare : ℕ → Entry ℕ ℕ
bare b = record {
  bridge = b;
  last_ok = none;
  last_attempt = 100;
  last_latency = 0;
  fails = 0;
  ok_count = 0;
  channel_ok_count = 0;
  last_channel_ok = none;
  verified_count = 0;
  last_verified = none;
  last_verification_attempt = none;
  circuit_fails = 0;
  last_circuit_observation = 100;
  sources = (5, tt) ∷ [];
}

-- Bridge 1 fails, bridge 2 works, bridge 3 has not been tried.
abbrev two_failures : Entry ℕ ℕ
two_failures = record (bare 1) { fails = 2 }

abbrev working : Entry ℕ ℕ
working = record (bare 2) { ok_count = 4; last_ok = some 90; last_latency = 30 }

abbrev small : BridgeStore ℕ ℕ ℕ
small = record { path = []; entries = (1, two_failures) ∷ (2, working) ∷ (3, bare 3) ∷ [] }

small-IsValid : IsValid self small
small-IsValid = record { sorted = ground arith; kept = ground arith }

-- A round at 200 with a window of 50 counts a third failure of bridge 1, which is pruned at three.
round_drops : (note_probe_round self small (1 ∷ 2 ∷ []) ((2, 25) ∷ []) 200 50 3 9).1 ≡ 1 ∷ []
unfolding note_probe_round record_alive note_failures prune note_failure_at lookup record_at insert
round_drops = refl

run-IsValid_example : IsValid self (
    run self small (
      probe_round (1 ∷ 2 ∷ []) ((2, 25) ∷ []) 200 50 3 9
      ∷ permanent_failure 2 210
      ∷ source_credit 7 6 220
      ∷ []))
run-IsValid_example =
    run-IsValid self small
      (probe_round (1 ∷ 2 ∷ []) ((2, 25) ∷ []) 200 50 3 9
        ∷ permanent_failure 2 210
        ∷ source_credit 7 6 220
        ∷ [])
      small-IsValid

-- What the round at 200 leaves.
abbrev round_entries : List (ℕ × Entry ℕ ℕ)
round_entries = (note_probe_round self small (1 ∷ 2 ∷ []) ((2, 25) ∷ []) 200 50 3 9).0.entries

note_probe_round-missed_example :
    lookup 1 round_entries ≡ spare self 3 9 (some (probe_miss 200 50 two_failures).0)
unfolding contains_key was_probed lookup
note_probe_round-missed_example =
    note_probe_round-missed self small (1 ∷ 2 ∷ []) ((2, 25) ∷ []) 200 50 3 9 small-IsValid 1
      two_failures (omega arith) refl refl refl

-- Bridge 2 answers twice; bridge 4 is new.
abbrev three_answers : List (ℕ × ℕ)
three_answers = (2, 25) ∷ (4, 31) ∷ (2, 27) ∷ []

abbrev answered_entries : List (ℕ × Entry ℕ ℕ)
answered_entries = (note_probe_round self small (1 ∷ 2 ∷ []) three_answers 200 50 3 9).0.entries

note_probe_round-Answered_example : lookup 2 answered_entries ≡ (
    if ltb 0 3
      && ltb
          (answered 200 (answers self 2 three_answers) 2 27 (lookup 2 small.entries)).circuit_fails
          9
    then some (answered 200 (answers self 2 three_answers) 2 27 (lookup 2 small.entries))
    else none)
note_probe_round-Answered_example =
    note_probe_round-Answered self small (1 ∷ 2 ∷ []) three_answers 200 50 3 9 small-IsValid 2 2 27
      refl

-- The new bridge has one answer, and bridge 2 two more than before.
new_bridge_known : map {B = ℕ} (λ x. x.1.ok_count) answered_entries ≡ 6 ∷ 0 ∷ 1 ∷ []
unfolding note_probe_round record_alive note_failures prune note_failure_at lookup record_at insert
    remove
new_bridge_known = refl

failures_at-rate_example :
    (e : Entry ℕ ℕ) × (lookup 1 (failures_at self 1 50 small (150 ∷ 160 ∷ 199 ∷ [])).entries
      ≡ some e)
    × (e.fails * 50 + 100 ≤ 199 + 2 * 50)
unfolding lookup
failures_at-rate_example =
    failures_at-rate self 1 50 small (150 ∷ 160 ∷ 199 ∷ []) 199 two_failures refl (omega arith)
      (omega arith)

prune_lem_example : prune small 2 9 ≡ (
  record small { entries = keep_if (λ x. is_below 2 9 x.1) small.entries },
  map (λ x. x.1.bridge) (keep_if (λ x. not (is_below 2 9 x.1)) small.entries),
)
prune_lem_example = prune_lem small 2 9 small-IsValid.sorted

abbrev IsAny : ℕ → Type 0
IsAny n = Unit

compare-TellsApart : TellsApart compare IsAny
compare-TellsApart x y h k e = ground (arith, e)

take_best_lem_example :
    take_best compare (scan_heap compare) 2 (5 ∷ 3 ∷ 9 ∷ 4 ∷ [])
    ≡ some (take 2 (sort compare (5 ∷ 3 ∷ 9 ∷ 4 ∷ [])))
take_best_lem_example =
    take_best_lem compare compare-IsPreorder IsAny compare-TellsApart (scan_heap compare) 2
      (5 ∷ 3 ∷ 9 ∷ 4 ∷ []) (scan_heap-HeapLaws compare compare-IsPreorder)
      (tt, (tt, (tt, (tt, tt))))

-- The two smallest, in order.
two_best : take_best compare (scan_heap compare) 2 (5 ∷ 3 ∷ 9 ∷ 4 ∷ []) ≡ some (3 ∷ 4 ∷ [])
unfolding take_best take_greatest
two_best = refl

abbrev due_heap : BinaryHeap (Ranked ℕ ℕ)
due_heap = scan_heap due_cmp

abbrev rank_heap : BinaryHeap (Ranked ℕ ℕ)
rank_heap = scan_heap ranked_cmp

rank_heap-HeapLaws : HeapLaws ranked_cmp rank_heap
rank_heap-HeapLaws = scan_heap-HeapLaws ranked_cmp ranked_cmp-IsPreorder

healthiest_among_serves_example :
    (bs : List ℕ) × (healthiest_among self rank_heap small (2 ∷ 3 ∷ []) 5 ≡ some bs)
    × (length bs ≡ min 5 (length (admitted self small (2 ∷ 3 ∷ []))))
    × All (λ b. IsServable self small b × (allowed self (2 ∷ 3 ∷ []) (self b) ≡ true)) bs
healthiest_among_serves_example =
    healthiest_among_serves self small small-IsValid rank_heap (2 ∷ 3 ∷ []) 5 rank_heap-HeapLaws

-- The label `a b%,`, with the space as white space.
abbrev is_space : List ℕ → Bool
is_space c = key_eq c (32 ∷ [])

abbrev spaced_label : List (List ℕ)
spaced_label = (97 ∷ []) ∷ (32 ∷ []) ∷ (98 ∷ []) ∷ (37 ∷ []) ∷ (44 ∷ []) ∷ []

one_byte-IsChar : (b : ℕ) → b < 256 → IsChar (b ∷ [])
unfolding text_cmp
one_byte-IsChar b h = record { bytes = (h, tt); percent_alone = λ e. (ground (arith, e), tt) }

decode_source-encode_source_example :
    decode_source (encode_source is_space spaced_label) ≡ bytes_of spaced_label
decode_source-encode_source_example = decode_source-encode_source is_space spaced_label (
  one_byte-IsChar 97 (omega arith),
  (
    one_byte-IsChar 32 (omega arith),
    (
      one_byte-IsChar 98 (omega arith),
      (one_byte-IsChar 37 (omega arith), (one_byte-IsChar 44 (omega arith), tt)),
    ),
  ),
)

-- A bridge line is a byte, which is its own key; numbers and times have one digit.
abbrev digit : Text → Option ℕ
digit [] = none
digit (c ∷ d ∷ s) = none
digit (c ∷ []) = if leb 48 c && leb c 57 then some (c - 48) else none

digit_bounds : (t : Text) (n : ℕ) → digit t ≡ some n → n ≤ u32_max
digit_bounds [] n e = ground (arith, e)
digit_bounds (c ∷ d ∷ s) n e = ground (arith, e)
digit_bounds (c ∷ []) n e = ground (arith, e)

abbrev same_text : Text → Text
same_text s = s

abbrev one_byte : Text → Option ℕ
one_byte [] = none
one_byte (c ∷ d ∷ s) = none
one_byte (c ∷ []) = some c

abbrev usable : ℕ → Bool
usable b = not (b == 66)

-- A comment with two failures, its bridge `A`, and `B`, which Tor cannot use.
abbrev file_lines : List Text
file_lines =
    (35 ∷ 32 ∷ 102 ∷ 97 ∷ 105 ∷ 108 ∷ 115 ∷ 61 ∷ 50 ∷ 32 ∷ 115 ∷ 101 ∷ 101 ∷ 110 ∷ 61 ∷ 51 ∷ [])
    ∷ (65 ∷ [])
    ∷ (66 ∷ [])
    ∷ []

abbrev from_file : BridgeStore ℕ ℕ Text
from_file =
    load_store 0 digit digit digit same_text same_text (split 32) self one_byte usable [] file_lines

file_is_read : map {B = ℕ} (λ x. x.1.fails + x.1.ok_count) from_file.entries ≡ 5 ∷ []
unfolding load_store load_all load_line load_bridge or_default strip_prefix parse_meta_comment
    parse_fields parse_field split insert
file_is_read = refl

load_store-IsValid_example :
    All (λ x. usable x.1.bridge ≡ true) from_file.entries
    × IsValid self (run self from_file (permanent_failure 65 9 ∷ []))
load_store-IsValid_example =
    load_store-IsValid 0 digit digit digit same_text same_text (split 32) digit_bounds self one_byte
      usable [] file_lines (permanent_failure 65 9 ∷ [])
