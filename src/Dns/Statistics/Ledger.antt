-- ===== src/Dns/Statistics/Ledger.antt =====
-- packages/dns-server/src/statistics/query_statistics_store.rs: the batches of the thread that keeps
-- the question statistics, without the rows of its database, and its counters.
use tor_socks.Base.{
  ℕ, ◌+◌, ◌-◌, Bool, true, false, ◌&&◌, Option, none, some, List, [], ◌∷◌, length, if◌then◌else◌,
  ltb, leb, max,
}
use tor_socks.OrdMap.Text.{Text}

abbrev pub batch_capacity : ℕ
batch_capacity = 256

abbrev pub window_seconds : ℕ
window_seconds = 2_592_000

-- `i64::MAX`
abbrev pub i64_max : ℕ
i64_max = 9_223_372_036_854_775_807

-- `pos n` is `n` and `negsuc n` is `-1 - n`.
pub data ℤ : Type 0 where
  pos : ℕ → ℤ
  negsuc : ℕ → ℤ

pub record Event : Type 0 where
  pub domain : Text
  pub rr_type : ℕ
  pub class : ℕ
  pub second : ℤ

pub record Health : Type 0 where
  pub accepted : ℕ
  pub saved : ℕ
  pub expired : ℕ
  pub dropped : ℕ
  pub unsaved : ℕ

-- The counters stop at `i64::MAX`.
abbrev pub add : ℕ → ℕ → ℕ
add counter amount = if leb i64_max (counter + amount) then i64_max else counter + amount

-- `pending` of the status.
unfoldable pub pending : Health → ℕ
pending h = h.accepted - h.saved - h.expired - h.unsaved

pub record BatchClasses : Type 0 where
  pub saved : ℕ
  pub expired : ℕ
  pub invalid : ℕ

-- The store's clock, which is never negative, and whether a write failed.
pub record Store : Type 0 where
  pub highwater : ℕ
  pub is_faulted : Bool

-- Sums that leave the range of a signed counter are refused.
unfoldable pub restore_totals : ℕ → ℕ → ℕ → ℕ → Option (ℕ × ℕ)
restore_totals accepted saved expired unsaved =
    let completed = saved + expired + unsaved in
    if leb completed i64_max
    then some (max accepted completed, max accepted completed - saved - expired)
    else none

-- Which counts of seconds are instants of the calendar, and which names are normalized, is for other
-- crates to say.
module _ (is_instant : ℕ → Bool) (is_normalized : Text → Bool) where
  unfoldable pub is_valid : Event → Bool
  is_valid event = elim event.second [
    | pos n ↦ is_instant n && (leb (length event.domain) 1024 && is_normalized event.domain)
    | negsuc n ↦ false
  ]

  -- The later of two seconds.
  abbrev pub later : ℕ → ℤ → ℕ
  later end (pos n) = max end n
  later end (negsuc n) = end

  unfoldable pub new_highwater : List Event → ℕ → ℕ
  new_highwater [] end = end
  new_highwater (event ∷ events) end =
      new_highwater events (if is_valid event then later end event.second else end)

  -- The second is at the window's beginning, or before it.
  abbrev pub is_expired : ℕ → ℤ → Bool
  is_expired highwater (pos n) = leb (n + window_seconds) highwater
  is_expired highwater (negsuc n) = true

  unfoldable pub classify : ℕ → List Event → BatchClasses → BatchClasses
  unfolding is_valid
  classify highwater [] classes = classes
  classify highwater (event ∷ events) classes = classify highwater events (
      if is_valid event
      then if is_expired highwater event.second
        then record classes { expired = classes.expired + 1 }
        else record classes { saved = classes.saved + 1 }
      else record classes { invalid = classes.invalid + 1 })

  -- `is_committed` says whether the database took the batch, the sums within range included.
  unfoldable pub save_batch : Bool → List Event → ℕ → Store → Option (BatchClasses × Store)
  unfolding new_highwater classify
  save_batch is_committed events now store =
      if ltb batch_capacity (length events)
      then none
      else let highwater = new_highwater events (max store.highwater now) in
        let classes = classify highwater events (record { saved = 0; expired = 0; invalid = 0 }) in
        if is_committed then some (classes, record store { highwater = highwater }) else none

  unfoldable pub batch : Bool → List Event → ℕ → Store → Health → Store × Health
  unfolding save_batch
  batch is_committed [] now store health = (store, health)
  batch is_committed (event ∷ events) now store health =
      let amount = length (event ∷ events) in
      if store.is_faulted
      then (store, record health { unsaved = add health.unsaved amount })
      else elim (save_batch is_committed (event ∷ events) now store) [
        | some (classes, store') ↦ (
          store',
          record health {
            saved = add health.saved classes.saved;
            expired = add health.expired classes.expired;
            unsaved = add health.unsaved classes.invalid;
          },
        )
        | none ↦ (
          record store { is_faulted = true },
          record health { unsaved = add health.unsaved amount },
        )
      ]
