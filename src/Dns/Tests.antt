-- ===== src/Dns/Tests.antt =====
-- A small cache, and the theorems on admission and ageing at concrete inputs. A key is a number, a
-- name's labels are one number.
use tor_socks.Base.{
  Bool, map, ◌↔◌, ℕ, ◌≤◌, ◌≡◌, refl, ap, true, some, List, [], ◌∷◌, arith, length, if◌then◌else◌,
}
use tor_socks.OrdMap.{KeyOrd, nat_ord, lookup}
use tor_socks.OrdMap.Text.{Text, text_cmp, text_ord, text_cmp-flip, text_cmp_trans}
use tor_socks.Dns.Cache.{
  CacheItem, Query, payload, admit, dns_cache_cap, max_payload, remaining, age, wall_age, touch,
  get_entry, is_expired,
}
use tor_socks.Dns.Evict.{admit_bounds}
use tor_socks.Dns.Ageing.{Shrinks, get_entry-Shrinks}
use tor_socks.Dns.Overrides.{
  DnsOverride, OverrideResolver, host_matches, scan_host, to_lower, all_stars, find_override,
}
use tor_socks.Dns.Glob.{Fits, IsFirst, host_matches-Fits, find_override-IsFirst}

-- An answer of three bytes, resolved at 100 for 60.
abbrev answer : ℕ → CacheItem
answer ttl = record {
  packet = 1 ∷ 2 ∷ 3 ∷ [];
  ttl = ttl;
  resolved_at = 100;
  admitted = 10;
  initial_age = 0;
}

abbrev two_answers : List (ℕ × CacheItem)
two_answers = (7, answer 60) ∷ (8, answer 30) ∷ []

admit_bounds_example :
    (length (admit two_answers 9 (answer 5) 101 11) ≤ dns_cache_cap)
    × (payload (admit two_answers 9 (answer 5) 101 11) ≤ max_payload)
    × (lookup 9 (admit two_answers 9 (answer 5) 101 11) ≡ some (answer 5))
admit_bounds_example = admit_bounds two_answers 9 (answer 5) 101 11 (omega arith)

-- Queries in the order of their four numbers.
abbrev numbers : Query ℕ → Text
numbers q = q.name.labels ∷ (if q.name.is_fqdn then 1 else 0) ∷ q.query_type ∷ q.query_class ∷ []

numbers_eq : (a b : Query ℕ) → numbers a ≡ numbers b → a ≡ b
numbers_eq a b h = ground (arith, h)

instance abbrev query_ord : KeyOrd (Query ℕ)
query_ord = record {
  cmp = λ a b. text_cmp (numbers a) (numbers b);
  cmp_eq = λ a b. (
    λ h. numbers_eq a b ((text_ord.cmp_eq (numbers a) (numbers b)).0 h),
    λ h. (text_ord.cmp_eq (numbers a) (numbers b)).1 (ap numbers h),
  );
  cmp_flip = λ a b. text_cmp-flip (numbers a) (numbers b);
  cmp_trans = λ a b c. text_cmp_trans (numbers a) (numbers b) (numbers c);
}

abbrev question : Query ℕ
question = record { name = record { labels = 5; is_fqdn = true }; query_type = 1; query_class = 1 }

abbrev one_answer : List (Query ℕ × CacheItem)
one_answer = (question, answer 60) ∷ []

served : (get_entry one_answer question 120 15).0 ≡ some (touch (answer 60) 120 15)
unfolding get_entry lookup is_expired remaining age wall_age text_cmp
served = refl

get_entry-Shrinks_example : Shrinks (touch (answer 60) 120 15) 120 15
get_entry-Shrinks_example =
    get_entry-Shrinks one_answer question 120 15 (touch (answer 60) 120 15) (omega arith, tt) served

-- The pattern `*.onion`, and `a.ONION`.
abbrev dot_onion : Text
dot_onion = 42 ∷ 46 ∷ 111 ∷ 110 ∷ 105 ∷ 111 ∷ 110 ∷ []

abbrev an_onion : Text
an_onion = 97 ∷ 46 ∷ 79 ∷ 78 ∷ 73 ∷ 79 ∷ 78 ∷ []

matched : host_matches dot_onion an_onion ≡ some true
unfolding host_matches scan_host to_lower all_stars
matched = refl

host_matches-Fits_example :
    (b : Bool) × (host_matches dot_onion an_onion ≡ some b)
    × ((b ≡ true) ↔ Fits (map to_lower dot_onion) (map to_lower an_onion))
host_matches-Fits_example = host_matches-Fits dot_onion an_onion

abbrev two_overrides : List DnsOverride
two_overrides =
    record { pattern = 97 ∷ 42 ∷ 98 ∷ []; resolver = OverrideResolver.system }
    ∷ record { pattern = dot_onion; resolver = OverrideResolver.system }
    ∷ []

find_override-IsFirst_example :
    IsFirst an_onion two_overrides (find_override two_overrides an_onion)
find_override-IsFirst_example = find_override-IsFirst two_overrides an_onion
