-- ===== src/Store/Served.antt =====
-- Which bridges a selection hands out, and how many.
use Prim.Native.Nat.add
use tor_socks.Base.{
  ℕ, ◌≡◌, ◌∙◌, true, some, List, arith, All, length, min, All-take, All-map, All-both,
  All-keep_if_both, length-take, length-map, ap, take, [],
}
use tor_socks.OrdMap.{KeyOrd, lookup, values}
use tor_socks.OrdMap.Laws.{lookup_self}
use tor_socks.Best.{BinaryHeap, HeapLaws, sort, sort_onto}
use tor_socks.Best.Insertion.{length-sort_onto, All-sort_onto}
use tor_socks.Store.Entry.{Entry, BridgeStore, is_proven_alive}
use tor_socks.Store.Rank.{Ranked, rank_cmp, ranked_cmp, allowed, healthiest_among}
use tor_socks.Store.Ranking.{best_of, rank_cmp-IsPreorder, admitted, healthiest_among_lem}
use tor_socks.Store.Valid.{IsValid}

module _ {L S : Type 0} where
  length-best_of :
      (limit : ℕ) (es : List (Entry L S))
      → length (best_of rank_cmp limit es) ≡ min limit (length es)
  unfolding best_of sort
  length-best_of limit es =
      length-map (λ e. e.bridge) (take limit (sort_onto rank_cmp [] es))
      ∙ length-take limit (sort_onto rank_cmp [] es)
      ∙ ap (min limit) (length-sort_onto rank_cmp rank_cmp-IsPreorder [] es ∙ add.zero (length es))

  All-best_of {ℓ} :
      (P : L → Type ℓ) (limit : ℕ) (es : List (Entry L S))
      → All (λ e. P e.bridge) es
      → All P (best_of rank_cmp limit es)
  unfolding best_of sort
  All-best_of P limit es h =
      All-map (λ e. e.bridge) P _
        (All-take (λ e. P e.bridge) limit _
          (All-sort_onto rank_cmp rank_cmp-IsPreorder (λ e. P e.bridge) _ es tt h))

-- The store knows the bridge as proven alive: an answered probe, none failed since, not retired.
pub record IsServable {L K S : Type 0} ⦃o : KeyOrd K⦄ (key_of : L → K) (s : BridgeStore L K S)
    (b : L) : Type 0 where
  pub entry : Entry L S
  pub known : lookup (key_of b) s.entries ≡ some entry
  pub alive : is_proven_alive entry ≡ true

module _ {L K S : Type 0} ⦃o : KeyOrd K⦄ (key_of : L → K) (s : BridgeStore L K S)
    (v : IsValid key_of s) where
  admitted-IsServable :
      (candidates : List L)
      → All
          (λ x.
            IsServable key_of s x.1.bridge × (allowed key_of candidates (key_of x.1.bridge) ≡ true))
          (admitted key_of s candidates)
  admitted-IsServable candidates =
      All-keep_if_both _ _ _ s.entries
        (λ x h t. (
          record { entry = x.1; known = rw h.1.keyed h.0; alive = ground arith },
          rw h.1.keyed (ground arith),
        ))
        (All-both _ _ s.entries (lookup_self s.entries v.sorted) v.kept)

  -- With a heap that keeps the documented laws, a selection among candidates answers, with as many bridges as the limit and the store allow;
  -- each is one of the candidates, proven alive and not retired.
  pub healthiest_among_serves :
      (heap : BinaryHeap (Ranked L S)) (candidates : List L) (limit : ℕ)
      → HeapLaws ranked_cmp heap
      → (bs : List L) × (healthiest_among key_of heap s candidates limit ≡ some bs)
        × (length bs ≡ min limit (length (admitted key_of s candidates)))
        × All (λ b. IsServable key_of s b × (allowed key_of candidates (key_of b) ≡ true)) bs
  healthiest_among_serves heap candidates limit laws = (
    best_of rank_cmp limit (values (admitted key_of s candidates)),
    healthiest_among_lem key_of heap s candidates limit laws,
    length-best_of limit (values (admitted key_of s candidates))
        ∙ ap (min limit) (length-map (λ x. x.1) (admitted key_of s candidates)),
    All-best_of _ limit _ (All-map (λ x. x.1) _ _ (admitted-IsServable candidates)),
  )
