-- ===== src/Store/Ranking.antt =====
-- The ranked selections meet their specification: the stable sort of the admitted entries, cut off.
use tor_socks.Base.{
  ℕ, zero, suc, ◌+◌, ◌≡◌, refl, sym, ap, ◌∙◌, ◌&&◌, Option, none, some, List, [], ◌∷◌, map, arith,
  All, Ordering, take, keep_if, map-take, map-map,
}
use mathlib.Core.Option.{some-injective}
use tor_socks.OrdMap.{KeyOrd, values}
use tor_socks.Best.{option_cmp, BinaryHeap, HeapLaws, take_best, sort}
use tor_socks.Best.Order.{
  IsPreorder, compare-IsPreorder, option_cmp-IsPreorder, by-IsPreorder, descending-IsPreorder,
  then_with-IsPreorder,
}
use tor_socks.Best.Selection.{TellsApart, take_best_lem}
use tor_socks.Best.Stable.{CountedFrom, map-sort, tie_broken}
use tor_socks.Store.Entry.{Entry, BridgeStore, is_proven_alive}
use tor_socks.Store.Rank.{
  Ranked, rank_cmp, channel_proven_cmp, due, ranked_cmp, channel_cmp, due_cmp, enumerate, bridges,
  rank_and_take, is_channel_proven, channel_proven_bridges, allowed, healthiest_among,
}

module _ {L S : Type 0} where
  pub rank_cmp-IsPreorder : IsPreorder {A = Entry L S} rank_cmp
  unfolding rank_cmp
  rank_cmp-IsPreorder =
      then_with-IsPreorder
        (then_with-IsPreorder
          (then_with-IsPreorder
            (then_with-IsPreorder
              (then_with-IsPreorder
                (descending-IsPreorder (λ (e : Entry L S). e.verified_count) compare-IsPreorder)
                (descending-IsPreorder (λ (e : Entry L S). e.last_verified) option_cmp-IsPreorder))
              (descending-IsPreorder (λ (e : Entry L S). e.channel_ok_count) compare-IsPreorder))
            (descending-IsPreorder (λ (e : Entry L S). e.last_channel_ok) option_cmp-IsPreorder))
          (descending-IsPreorder (λ (e : Entry L S). e.ok_count) compare-IsPreorder))
        (by-IsPreorder (λ (e : Entry L S). e.last_latency) compare-IsPreorder)

  pub channel_proven_cmp-IsPreorder : IsPreorder {A = Entry L S} channel_proven_cmp
  unfolding channel_proven_cmp
  channel_proven_cmp-IsPreorder =
      then_with-IsPreorder
        (descending-IsPreorder (λ (e : Entry L S). e.last_channel_ok) option_cmp-IsPreorder)
        (descending-IsPreorder (λ (e : Entry L S). e.channel_ok_count) compare-IsPreorder)

  -- Oldest verification first; never attempted and never verified before all others.
  abbrev pub due_order : Entry L S → Entry L S → Ordering
  due_order a b = option_cmp (due a) (due b)

  pub due_order-IsPreorder : IsPreorder {A = Entry L S} due_order
  due_order-IsPreorder = by-IsPreorder due option_cmp-IsPreorder

  -- The first `limit` bridges of the stable sort.
  unfoldable pub best_of : (Entry L S → Entry L S → Ordering) → ℕ → List (Entry L S) → List L
  best_of c limit es = map (λ e. e.bridge) (take limit (sort c es))

  enumerate-Counted :
      (n : ℕ) (es : List (Entry L S))
      → CountedFrom (λ (r : Ranked L S). r.position) n (enumerate n es)
  unfolding enumerate
  enumerate-Counted n [] = tt
  enumerate-Counted n (e ∷ es) = (refl, enumerate-Counted (suc n) es)

  map-enumerate :
      (n : ℕ) (es : List (Entry L S)) → map (λ (r : Ranked L S). r.entry) (enumerate n es) ≡ es
  unfolding enumerate
  map-enumerate n [] = refl
  map-enumerate n (e ∷ es) = ap (◌∷◌ e) (map-enumerate (suc n) es)

  nth : ℕ → List (Entry L S) → Option (Entry L S)
  nth n [] = none
  nth zero (e ∷ es) = some e
  nth (suc n) (e ∷ es) = nth n es

  -- The item is the entry at its position.
  abbrev IsNumbered : List (Entry L S) → Ranked L S → Type 0
  IsNumbered es r = nth r.position es ≡ some r.entry

  nth-prefix :
      (n : ℕ) (all es : List (Entry L S))
      → ((i : ℕ) → nth (i + n) all ≡ nth i es)
      → All (IsNumbered all) (enumerate n es)
  unfolding enumerate nth
  nth-prefix n all [] h = tt
  nth-prefix n all (e ∷ es) h = (
    ap (λ m. nth m all) {x = n} {y = 0 + n} (omega arith) ∙ h 0,
    nth-prefix (suc n) all es
        (λ i. ap (λ m. nth m all) {x = i + suc n} {y = suc i + n} (omega arith) ∙ h (suc i)),
  )

  enumerate-IsNumbered : (es : List (Entry L S)) → All (IsNumbered es) (enumerate 0 es)
  enumerate-IsNumbered es =
      nth-prefix 0 es es (λ i. ap (λ m. nth m es) {x = i + 0} {y = i} (omega arith))

  ranked_same : (x y : Ranked L S) → x.position ≡ y.position → x.entry ≡ y.entry → x ≡ y
  ranked_same x y h k = ground (arith, h, k)

  module _ (c : Entry L S → Entry L S → Ordering) (p : IsPreorder c) where
    abbrev pub tied : Ranked L S → Ranked L S → Ordering
    tied = tie_broken (λ r. r.position) (λ r. r.entry) c

    tied-IsPreorder : IsPreorder tied
    tied-IsPreorder =
        then_with-IsPreorder (by-IsPreorder (λ (r : Ranked L S). r.entry) p)
          (by-IsPreorder (λ (r : Ranked L S). r.position) compare-IsPreorder)

    tied-TellsApart : (es : List (Entry L S)) → TellsApart tied (IsNumbered es)
    tied-TellsApart es x y hx hy e =
        let same : x.position ≡ y.position = ground (arith, e) in
        let there : some x.entry ≡ some y.entry = sym hx ∙ ap (λ n. nth n es) same ∙ hy in
        ranked_same x y same (some-injective x.entry y.entry there)

    -- The bounded heap with positions, against the stable sort without.
    pub bridges-take_best :
        (heap : BinaryHeap (Ranked L S)) (limit : ℕ) (es : List (Entry L S))
        → HeapLaws tied heap
        → bridges (take_best tied heap limit (enumerate 0 es)) ≡ some (best_of c limit es)
    unfolding best_of
    bridges-take_best heap limit es laws =
        rw
          (take_best_lem tied tied-IsPreorder (IsNumbered es) (tied-TellsApart es) heap limit
            (enumerate 0 es) laws (enumerate-IsNumbered es))
          (ap some (
            sym (map-map (λ (e : Entry L S). e.bridge) (λ (r : Ranked L S). r.entry) _)
            ∙ ap (map λ e. e.bridge) (
                map-take (λ (r : Ranked L S). r.entry) limit (sort tied (enumerate 0 es))
                ∙ ap (take limit) (
                    map-sort (λ r. r.position) (λ r. r.entry) c 0 (enumerate 0 es)
                      (enumerate-Counted 0 es)
                    ∙ ap (sort c) (map-enumerate 0 es)))))

  pub ranked_cmp-IsPreorder : IsPreorder {A = Ranked L S} ranked_cmp
  unfolding ranked_cmp
  ranked_cmp-IsPreorder = tied-IsPreorder rank_cmp rank_cmp-IsPreorder

  pub due_cmp-IsPreorder : IsPreorder {A = Ranked L S} due_cmp
  unfolding due_cmp
  due_cmp-IsPreorder = tied-IsPreorder due_order due_order-IsPreorder

module _ {L K S : Type 0} (heap : BinaryHeap (Ranked L S)) (s : BridgeStore L K S) (limit : ℕ) where
  -- So with the bridges that have carried a channel, by the most recent channel.
  pub channel_proven_bridges_lem :
      HeapLaws channel_cmp heap
      → channel_proven_bridges heap s limit
        ≡ some (best_of channel_proven_cmp limit (keep_if is_channel_proven (values s.entries)))
  unfolding channel_proven_bridges channel_cmp
  channel_proven_bridges_lem laws =
      bridges-take_best channel_proven_cmp channel_proven_cmp-IsPreorder heap limit _ laws

module _ {L K S : Type 0} ⦃o : KeyOrd K⦄ (key_of : L → K) (s : BridgeStore L K S) where
  abbrev pub admitted : List L → List (K × Entry L S)
  admitted candidates =
      keep_if (λ x. is_proven_alive x.1 && allowed key_of candidates x.0) s.entries

module _ {L K S : Type 0} ⦃o : KeyOrd K⦄ (key_of : L → K) (heap : BinaryHeap (Ranked L S))
    (s : BridgeStore L K S) where
  -- The restriction to the candidates comes before the ranking.
  pub healthiest_among_lem :
      (candidates : List L) (limit : ℕ)
      → HeapLaws ranked_cmp heap
      → healthiest_among key_of heap s candidates limit
        ≡ some (best_of rank_cmp limit (values (admitted key_of s candidates)))
  unfolding healthiest_among rank_and_take ranked_cmp
  healthiest_among_lem candidates limit laws =
      bridges-take_best rank_cmp rank_cmp-IsPreorder heap limit _ laws
