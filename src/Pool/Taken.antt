-- ===== src/Pool/Taken.antt =====
-- apps/socks5-proxy/src/bridges/candidate_pool.rs: which bridges are taken.
use tor_socks.Base.{
  ℕ, zero, suc, ◌≡◌, refl, ap, inl, inr, Bool, Option, none, some, List, [], ◌∷◌, Bool-cases, take,
  keep_if, drop,
}
use tor_socks.OrdMap.{KeyOrd}
use tor_socks.OrdMap.Text.{Text, text_ord}
use tor_socks.Pool.Candidates.{
  CandidatePool, split_matches, has_transport, take_first, take_transport,
}

-- Two lists merged into one, each in its order.
pub data Interleaves {B : Type 0} : List B → List B → List B → Type 0 where
  ended : Interleaves [] [] []
  from_left : (b : B) {xs ys zs : List B} → Interleaves xs ys zs → Interleaves (b ∷ xs) ys (b ∷ zs)
  from_right : (b : B) {xs ys zs : List B} → Interleaves xs ys zs → Interleaves xs (b ∷ ys) (b ∷ zs)

Interleaves-right : {B : Type 0} (xs : List B) → Interleaves [] xs xs
Interleaves-right [] = ended
Interleaves-right (b ∷ xs) = from_right b (Interleaves-right xs)

Interleaves-append : {B : Type 0} (n : ℕ) (xs : List B) → Interleaves (take n xs) (drop n xs) xs
Interleaves-append zero xs = Interleaves-right xs
Interleaves-append (suc n) [] = ended
Interleaves-append (suc n) (b ∷ xs) = from_left b (Interleaves-append n xs)

module _ {B K : Type 0} ⦃o : KeyOrd K⦄ (key_of : B → K) where
  split_matches_lem :
      (is_match : B → Bool) (n : ℕ) (xs : List B)
      → ((split_matches key_of is_match n xs).0 ≡ take n (keep_if is_match xs))
        × Interleaves
            (split_matches key_of is_match n xs).0
            (split_matches key_of is_match n xs).1
            xs
  unfolding split_matches
  split_matches_lem is_match zero xs = (refl, Interleaves-right xs)
  split_matches_lem is_match (suc n) [] = (refl, ended)
  split_matches_lem is_match (suc n) (b ∷ xs) = elim (Bool-cases (is_match b)) [
    | inl e ↦
        let rec = split_matches_lem is_match n xs in
        rw (e) (ap (λ rest. b ∷ rest) rec.0, from_left b rec.1)
    | inr e ↦ let rec = split_matches_lem is_match (suc n) xs in rw (e) (rec.0, from_right b rec.1)
  ]

  -- The bridges that a taking may choose from.
  abbrev pub eligible : (B → Option Text) → Option Text → List B → List B
  eligible transport none xs = xs
  eligible transport (some name) xs = keep_if (has_transport key_of transport name) xs

  -- A taking of `n` bridges takes the first `n` of the transport, or the first `n` of all without
  -- one, and the others stay, both in the pool's order.
  pub take_transport-Interleaves :
      (transport : B → Option Text) (n : ℕ) (name : Option Text) (pool : CandidatePool B K)
      → ((take_transport key_of transport n name pool).0
          ≡ take n (eligible transport name pool.bridges))
        × Interleaves
            (take_transport key_of transport n name pool).0
            (take_transport key_of transport n name pool).1.bridges
            pool.bridges
  unfolding take_transport take_first
  take_transport-Interleaves transport n none pool = (refl, Interleaves-append n pool.bridges)
  take_transport-Interleaves transport n (some name) pool =
      split_matches_lem (has_transport key_of transport name) n pool.bridges
