-- ===== src/Channels/Outbox/Due.antt =====
-- What holds of the rows that a claim or a recovery picks.
use heimdall.Base.{
  ℕ, zero, suc, ◌≡◌, Bool, true, List, [], ◌∷◌, take, keep_if, All, Bool-cases, inl, inr,
}
use heimdall.Database.{ChannelOutbox}
use heimdall.Channels.Outbox.{insert, order_by, or_one, picked}

module _ (P : ChannelOutbox → Type 0) where
  All-keep_if :
      (p : ChannelOutbox → Bool) (rows : List ChannelOutbox)
      → All P rows
      → All (λ o. P o × (p o ≡ true)) (keep_if p rows)
  All-keep_if p [] h = tt
  All-keep_if p (o ∷ rows) (h, more) = elim (Bool-cases (p o)) [
    | inl hit ↦ rw hit ((h, hit), All-keep_if p rows more)
    | inr miss ↦ rw miss (All-keep_if p rows more)
  ]

  All-insert :
      (before : ChannelOutbox → ChannelOutbox → Bool) (o : ChannelOutbox)
      (rows : List ChannelOutbox)
      → P o
      → All P rows
      → All P (insert before o rows)
  All-insert before o [] h more = (h, tt)
  All-insert before o (x ∷ rows) h (k, more) = elim (Bool-cases (before o x)) [
    | inl first ↦ rw first (h, (k, more))
    | inr later ↦ rw later (k, All-insert before o rows h more)
  ]

  All-order_by :
      (before : ChannelOutbox → ChannelOutbox → Bool) (rows : List ChannelOutbox)
      → All P rows
      → All P (order_by before rows)
  All-order_by before [] h = tt
  All-order_by before (o ∷ rows) (h, more) =
      All-insert before o (order_by before rows) h (All-order_by before rows more)

  All-take : (n : ℕ) (rows : List ChannelOutbox) → All P rows → All P (take n rows)
  All-take zero rows h = tt
  All-take (suc n) [] h = tt
  All-take (suc n) (o ∷ rows) (h, more) = (h, All-take n rows more)

pub All-picked :
    (P : ChannelOutbox → Type 0) (test : ChannelOutbox → Bool)
    (before : ChannelOutbox → ChannelOutbox → Bool) (limit : ℕ) (rows : List ChannelOutbox)
    → All P rows
    → All (λ o. P o × (test o ≡ true)) (picked test before limit rows)
All-picked P test before limit rows h =
    All-take _ (or_one limit) (order_by before (keep_if test rows))
      (All-order_by _ before (keep_if test rows) (All-keep_if P test rows h))
