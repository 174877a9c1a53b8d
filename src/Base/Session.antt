-- ===== src/Base/Session.antt =====
-- A connection to the database, as the stores of internal/ use it through `database.Querier`.
-- `tables` is what the connection sees, `now` is the time of `now()` in a statement, and `faults`
-- says of each coming statement whether it fails; the empty list is a run without failures.

pub mod Keeps
use mathlib.Core.Path.{◌≡◌, refl}
use mathlib.Core.Logic.{◌⊎◌, inl, inr}
use native.Mathlib.Omega.{arith}
use mathlib.Core.Bool.{Bool, true, false}
use mathlib.Core.List.{List, [], ◌∷◌}
use Prim.Native.Nat.{ℕ}
use package.heimdall.Base.Result.{Result, ok, err}

pub record Session {ℓ} (T : Type ℓ) : Type ℓ where
  pub tables : T
  pub now : ℕ
  pub faults : List Bool

-- An action on a session may fail and still have changed the tables.
abbrev pub Exec {ℓ} : Type ℓ → Type ℓ → Type ℓ → Type ℓ
Exec E T A = Session T → Result E A × Session T

module _ {ℓ} {E T A : Type ℓ} where
  abbrev pub pure : A → Exec E T A
  pure a s = (ok a, s)

  abbrev pub raise : E → Exec E T A
  raise e s = (err e, s)

  -- One SQL statement. A failing statement changes nothing and gives the caller's error.
  abbrev pub run_statement : Bool → List Bool → E → (ℕ → T → A × T) → Exec E T A
  run_statement true rest e f s = (err e, record s { faults = rest })
  run_statement false rest e f s =
      (ok (f s.now s.tables).0, record s { tables = (f s.now s.tables).1; faults = rest })

  abbrev pub statement_with : List Bool → E → (ℕ → T → A × T) → Exec E T A
  statement_with [] e f = run_statement false [] e f
  statement_with (b ∷ rest) e f = run_statement b rest e f

  abbrev pub statement : E → (ℕ → T → A × T) → Exec E T A
  statement e f s = statement_with s.faults e f s

module _ {ℓ} {E T A B : Type ℓ} where
  abbrev pub continue : Result E A → (A → Exec E T B) → Exec E T B
  continue (ok a) f s = f a s
  continue (err e) f s = (err e, s)

  infixl 10 ◌>>=◌ ◌>>◌
  abbrev pub ◌>>=◌ : Exec E T A → (A → Exec E T B) → Exec E T B
  ◌>>=◌ m f s = continue (m s).0 f (m s).1

  abbrev pub ◌>>◌ : Exec E T A → Exec E T B → Exec E T B
  m >> n = m >>= λ _. n

-- Inversion of success: of a bind, and of a statement.
module _ {ℓ} {E T A B : Type ℓ} where
  continue-ok :
      (r : Result E A) (f : A → Exec E T B) (s : Session T) (b : B)
      → (continue r f s).0 ≡ ok b
      → (a : A) × (r ≡ ok a) × ((f a s).0 ≡ ok b)
  continue-ok (ok a) f s b h = (a, refl, h)
  continue-ok (err e) f s b h = absurd (ground arith)

  pub >>=-ok :
      (m : Exec E T A) (f : A → Exec E T B) (s : Session T) (b : B)
      → ((m >>= f) s).0 ≡ ok b
      → (a : A) × ((m s).0 ≡ ok a) × ((f a (m s).1).0 ≡ ok b)
  >>=-ok m f s b h = continue-ok (m s).0 f (m s).1 b h

  continue-error :
      (r : Result E A) (f : A → Exec E T B) (s : Session T) (e : E)
      → (continue r f s).0 ≡ err e
      → (r ≡ err e) ⊎ ((a : A) × (r ≡ ok a) × ((f a s).0 ≡ err e))
  continue-error (ok a) f s e h = inr (a, refl, h)
  continue-error (err d) f s e h = inl (ground arith)

  -- An error of a bind comes from its first or from its second part.
  pub >>=-error :
      (m : Exec E T A) (f : A → Exec E T B) (s : Session T) (e : E)
      → ((m >>= f) s).0 ≡ err e
      → ((m s).0 ≡ err e) ⊎ ((a : A) × ((m s).0 ≡ ok a) × ((f a (m s).1).0 ≡ err e))
  >>=-error m f s e h = continue-error (m s).0 f (m s).1 e h

  -- A bind whose first part succeeds goes on from the session that it left.
  pub >>=-from :
      (m : Exec E T A) (f : A → Exec E T B) (s : Session T) (a : A)
      → (m s).0 ≡ ok a
      → (m >>= f) s ≡ f a (m s).1
  >>=-from m f s a h = rw h

  pub >>=-err :
      (m : Exec E T A) (f : A → Exec E T B) (s : Session T) (e : E)
      → (m s).0 ≡ err e
      → (m >>= f) s ≡ (err e, (m s).1)
  >>=-err m f s e h = rw h

module _ {ℓ} {E T A : Type ℓ} where
  statement_with-ok :
      (faults : List Bool) (e : E) (f : ℕ → T → A × T) (s : Session T) (a : A)
      → (statement_with faults e f s).0 ≡ ok a
      → (a ≡ (f s.now s.tables).0)
        × ((statement_with faults e f s).1.tables ≡ (f s.now s.tables).1)
        × ((statement_with faults e f s).1.now ≡ s.now)
  statement_with-ok [] e f s a h = (ground arith, refl, refl)
  statement_with-ok (true ∷ rest) e f s a h = absurd (ground arith)
  statement_with-ok (false ∷ rest) e f s a h = (ground arith, refl, refl)

  pub statement-ok :
      (e : E) (f : ℕ → T → A × T) (s : Session T) (a : A)
      → (statement e f s).0 ≡ ok a
      → (a ≡ (f s.now s.tables).0)
        × ((statement e f s).1.tables ≡ (f s.now s.tables).1)
        × ((statement e f s).1.now ≡ s.now)
  statement-ok e f s a h = statement_with-ok s.faults e f s a h

  statement_with-err :
      (faults : List Bool) (e : E) (f : ℕ → T → A × T) (s : Session T) (d : E)
      → (statement_with faults e f s).0 ≡ err d
      → (d ≡ e) × ((statement_with faults e f s).1.tables ≡ s.tables)
  statement_with-err [] e f s d h = absurd (ground arith)
  statement_with-err (true ∷ rest) e f s d h = (ground arith, refl)
  statement_with-err (false ∷ rest) e f s d h = absurd (ground arith)

  pub statement-err :
      (e : E) (f : ℕ → T → A × T) (s : Session T) (d : E)
      → (statement e f s).0 ≡ err d
      → (d ≡ e) × ((statement e f s).1.tables ≡ s.tables)
  statement-err e f s d h = statement_with-err s.faults e f s d h
