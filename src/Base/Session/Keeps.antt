-- ===== src/Base/Session/Keeps.antt =====
-- Invariants of the tables, along actions that succeed or fail.
use Prim.Native.Nat.{ℕ}
use mathlib.Core.Path.{◌≡◌, refl}
use mathlib.Core.Bool.{Bool, true, false}
use mathlib.Core.List.{List, [], ◌∷◌}
use package.heimdall.Base.Tests.{if◌then◌else◌}
use package.heimdall.Base.Result.{Result, ok, err}
use package.heimdall.Base.Session.{
  Session, Exec, pure, raise, statement, statement_with, continue, ◌>>=◌,
}

-- Whatever the faults, if the tables satisfy `P` before the action, they do after it.
pub record Keeps {ℓ} {E T A : Type ℓ} (P : T → Type ℓ) (m : Exec E T A) : Type ℓ where
  pub at : (s : Session T) → P s.tables → P (m s).1.tables

module _ {ℓ} {E T A : Type ℓ} {Good : T → Type ℓ} where
  pub Keeps-pure : (a : A) → Keeps {E = E} Good (pure a)
  Keeps-pure a = record { at = λ s h. h }

  pub Keeps-raise : (e : E) → Keeps {A = A} Good (raise e)
  Keeps-raise e = record { at = λ s h. h }

  statement_with-Keeps :
      (faults : List Bool) (e : E) (f : ℕ → T → A × T) (s : Session T)
      → ((now : ℕ) (t : T) → Good t → Good (f now t).1)
      → Good s.tables
      → Good (statement_with faults e f s).1.tables
  statement_with-Keeps [] e f s keep h = keep s.now s.tables h
  statement_with-Keeps (true ∷ rest) e f s keep h = h
  statement_with-Keeps (false ∷ rest) e f s keep h = keep s.now s.tables h

  pub Keeps-statement :
      (e : E) (f : ℕ → T → A × T)
      → ((now : ℕ) (t : T) → Good t → Good (f now t).1)
      → Keeps Good (statement e f)
  Keeps-statement e f keep = record { at = λ s h. statement_with-Keeps s.faults e f s keep h }

  pub Keeps-if :
      {m n : Exec E T A} (b : Bool) → Keeps Good m → Keeps Good n → Keeps Good (if b then m else n)
  Keeps-if true h k = h
  Keeps-if false h k = k

module _ {ℓ} {E T A B : Type ℓ} {Good : T → Type ℓ} where
  continue-Keeps :
      (r : Result E A) (f : A → Exec E T B) (s : Session T)
      → ((a : A) → Keeps Good (f a))
      → Good s.tables
      → Good (continue r f s).1.tables
  continue-Keeps (ok a) f s kf h = (kf a).at s h
  continue-Keeps (err e) f s kf h = h

  pub Keeps-bind :
      (m : Exec E T A) (f : A → Exec E T B) (first : Keeps Good m)
      (rest : (a : A) → Keeps Good (f a))
      → Keeps Good (m >>= f)
  Keeps-bind m f first rest = record {
    at = λ s good. continue-Keeps (m s).0 f (m s).1 rest (first.at s good);
  }

module _ {ℓ} {E T A B : Type ℓ} {Good : T → Type ℓ} where
  continue_result :
      (r : Result E A) (f : A → Exec E T B) (s : Session T)
      → ((a : A) → r ≡ ok a → Keeps Good (f a))
      → Good s.tables
      → Good (continue r f s).1.tables
  continue_result (ok a) f s rest good = (rest a refl).at s good
  continue_result (err e) f s rest good = good

  -- The second part may use what the first has answered.
  pub Keeps-bind_result :
      (m : Exec E T A) (f : A → Exec E T B) (first : Keeps Good m)
      (rest : (a : A) (s : Session T) → (m s).0 ≡ ok a → Keeps Good (f a))
      → Keeps Good (m >>= f)
  Keeps-bind_result m f first rest = record {
    at = λ s good. continue_result (m s).0 f (m s).1 (λ a. rest a s) (first.at s good);
  }
