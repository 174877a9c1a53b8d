-- ===== src/Base/Table.antt =====
-- SQL over a table held as the list of its rows: `UPDATE … SET … WHERE …`, and the row that a
-- statement with `RETURNING`, or a `SELECT`, hands to `QueryRow`.
use mathlib.Core.Path.{◌≡◌, refl, subst}
use mathlib.Core.Logic.{inl, inr}
use mathlib.Core.Bool.{Bool, true, false}
use mathlib.Core.Option.{Option, none, some}
use mathlib.Core.Option
use mathlib.Core.List.{List, [], ◌∷◌, ◌++◌}
use native.Mathlib.Omega.{arith}
use package.heimdall.Base.Tests.{if◌then◌else◌, Bool-cases}
use package.heimdall.Base.Lists.{All}

module _ {ℓ} {R : Type ℓ} where
  abbrev pub update_row : (R → Bool) → (R → R) → R → R
  update_row p f r = if p r then f r else r

  abbrev pub update_where : (R → Bool) → (R → R) → List R → List R
  update_where p f [] = []
  update_where p f (r ∷ rows) = update_row p f r ∷ update_where p f rows

  abbrev pub first_where : (R → Bool) → List R → Option R
  first_where p [] = none
  first_where p (r ∷ rows) = if p r then some r else first_where p rows

module _ {ℓ} {R : Type ℓ} where
  -- What a statement with `RETURNING` answers: the first row that it changed, as changed.
  abbrev pub returning : (R → Bool) → (R → R) → List R → Option R
  returning p f rows = Option.map f (first_where p rows)

  pub update_where-none :
      (p : R → Bool) (f : R → R) (rows : List R)
      → first_where p rows ≡ none
      → update_where p f rows ≡ rows
  update_where-none p f [] h = refl
  update_where-none p f (r ∷ rows) h = ground (arith, update_where-none p f rows)

  -- A property that the change keeps, on the rows that it meets, holds of the table after it.
  pub All-update_where {κ} :
      (P : R → Type κ) (p : R → Bool) (f : R → R)
      → ((r : R) → P r → p r ≡ true → P (f r))
      → (rows : List R) → All P rows
      → All P (update_where p f rows)
  All-update_where P p f keep [] h = tt
  All-update_where P p f keep (r ∷ rows) h = (row (p r) refl, All-update_where P p f keep rows h.1)
    where
      row : (b : Bool) → p r ≡ b → P (if b then f r else r)
      row true e = keep r h.0 e
      row false e = h.0

  -- Where the change does not touch what the search looks at, the search finds the changed row.
  pub first_where-update_where :
      (q p : R → Bool) (f : R → R)
      → ((r : R) → q (f r) ≡ q r)
      → (rows : List R)
      → first_where q (update_where p f rows) ≡ Option.map (update_row p f) (first_where q rows)
  first_where-update_where q p f same [] = refl
  first_where-update_where q p f same (r ∷ rows) =
      ground (arith, same r, first_where-update_where q p f same rows)

  pub first_where-holds :
      (p : R → Bool) (rows : List R) (r : R) → first_where p rows ≡ some r → p r ≡ true
  first_where-holds p [] r h = absurd (ground arith)
  first_where-holds p (x ∷ rows) r h = ground (arith, first_where-holds p rows r)

  pub All-first_where {κ} :
      (P : R → Type κ) (p : R → Bool) (rows : List R) (r : R)
      → All P rows
      → first_where p rows ≡ some r
      → P r
  All-first_where P p [] r h e = absurd (ground arith)
  All-first_where P p (x ∷ rows) r h e = elim (Bool-cases (p x)) [
    | inl hit ↦ let same : x ≡ r = ground arith in subst P same h.0
    | inr miss ↦ All-first_where P p rows r h.1 (ground arith)
  ]

  pub first_where-append :
      (p : R → Bool) (rows more : List R) (r : R)
      → first_where p rows ≡ some r
      → first_where p (rows ++ more) ≡ some r
  first_where-append p [] more r h = absurd (ground arith)
  first_where-append p (x ∷ rows) more r h = ground (arith, first_where-append p rows more r)

  -- The first row of a narrower search is that of the wider one, if it passes the narrower test.
  pub first_where-narrow :
      (p c : R → Bool) (rows : List R) (r : R)
      → ((x : R) → p x ≡ false → c x ≡ false)
      → c r ≡ true
      → first_where p rows ≡ some r
      → first_where c rows ≡ some r
  first_where-narrow p c [] r narrower ok h = absurd (ground arith)
  first_where-narrow p c (x ∷ rows) r narrower ok h =
      ground (arith, narrower x, first_where-narrow p c rows r narrower ok)
