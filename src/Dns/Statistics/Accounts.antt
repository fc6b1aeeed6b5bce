-- ===== src/Dns/Statistics/Accounts.antt =====
-- packages/dns-server/src/statistics: a batch adds each of its questions to one counter.
use tor_socks.Base.{
  ℕ, ◌+◌, ◌<◌, ◌≡◌, refl, ◌⊎◌, inl, inr, Bool, none, some, List, [], ◌∷◌, arith, length, Bool-cases,
  ltb, max,
}
use tor_socks.OrdMap.Text.{Text}
use tor_socks.Dns.Statistics.Ledger.{
  Event, Health, Store, BatchClasses, i64_max, batch_capacity, is_valid, is_expired, new_highwater,
  classify, save_batch, batch, restore_totals,
}

-- The questions whose fate is known.
abbrev pub completed : Health → ℕ
completed h = h.saved + h.expired + h.unsaved

-- The restored counters balance.
pub restore_totals_lem :
    (accepted saved expired unsaved : ℕ) (totals : ℕ × ℕ)
    → restore_totals accepted saved expired unsaved ≡ some totals
    → totals.0 ≡ saved + expired + totals.1
unfolding restore_totals
restore_totals_lem accepted saved expired unsaved totals e = ground arith

module _ (is_instant : ℕ → Bool) (is_normalized : Text → Bool) where
  abbrev in_all : BatchClasses → ℕ
  in_all c = c.saved + c.expired + c.invalid

  in_all-classify :
      (highwater : ℕ) (events : List Event) (c : BatchClasses)
      → in_all (classify is_instant is_normalized highwater events c) ≡ in_all c + length events
  unfolding classify
  in_all-classify highwater [] c = omega arith
  in_all-classify highwater (event ∷ events) c =
      elim (Bool-cases (is_valid is_instant is_normalized event)) [
        | inl e ↦ elim (Bool-cases (is_expired is_instant is_normalized highwater event.second)) [
          | inl f ↦
              ground (
                arith,
                e,
                f,
                in_all-classify highwater events (record c { expired = c.expired + 1 }),
              )
          | inr f ↦
              ground
                (arith, e, f, in_all-classify highwater events (record c { saved = c.saved + 1 }))
        ]
        | inr e ↦
            ground
              (arith, e, in_all-classify highwater events (record c { invalid = c.invalid + 1 }))
      ]

  save_batch_lem :
      (is_committed : Bool) (events : List Event) (now : ℕ) (store : Store)
      → (save_batch is_instant is_normalized is_committed events now store ≡ none)
        ⊎ ((c : BatchClasses) × (store' : Store) × (save_batch is_instant is_normalized is_committed
                events now store
              ≡ some (c, store'))
            × (in_all c ≡ length events))
  unfolding save_batch
  save_batch_lem is_committed events now store =
      let highwater = new_highwater is_instant is_normalized events (max store.highwater now) in
      let zero_classes : BatchClasses = record { saved = 0; expired = 0; invalid = 0 } in
      let classes = classify is_instant is_normalized highwater events zero_classes in
      elim (Bool-cases (ltb batch_capacity (length events))) [
        | inl e ↦ inl (ground (arith, e))
        | inr e ↦ elim (Bool-cases is_committed) [
          | inl f ↦ inr (
            classes,
            record store { highwater = highwater },
            rw (e, f) refl,
            omega (arith, in_all-classify highwater events zero_classes),
          )
          | inr f ↦ inl (ground (arith, e, f))
        ]
      ]

  -- What a batch does to the counters, when they are far enough from their limit.
  pub record IsCounted (amount : ℕ) (h h' : Health) : Type 0 where
    pub accepted : h'.accepted ≡ h.accepted
    pub balance : completed h + amount < i64_max → completed h' ≡ completed h + amount

  pub batch-IsCounted :
      (is_committed : Bool) (events : List Event) (now : ℕ) (store : Store) (h : Health)
      → IsCounted
          (length events)
          h
          (batch is_instant is_normalized is_committed events now store h).1
  unfolding batch
  batch-IsCounted is_committed [] now store h = record {
    accepted = refl;
    balance = λ f. omega arith;
  }
  batch-IsCounted is_committed (event ∷ events) now store h = elim (Bool-cases store.is_faulted) [
    | inl e ↦ record { accepted = ground (arith, e); balance = λ f. ground (arith, e, f) }
    | inr e ↦ elim (save_batch_lem is_committed (event ∷ events) now store) [
      | inl f ↦ record { accepted = ground (arith, e, f); balance = λ g. ground (arith, e, f, g) }
      | inr (c, store', f, total) ↦ record {
        accepted = ground (arith, e, f);
        balance = λ g. ground (arith, e, f, g, total);
      }
    ]
  ]
