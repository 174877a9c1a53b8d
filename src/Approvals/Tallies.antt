-- ===== src/Approvals/Tallies.antt =====
-- Identifiers for the examples of internal/approvals and internal/proxy.
use heimdall.Base.{ℕ, zero, suc, String, ◌≡◌, refl, ap, some}
use heimdall.Approvals.ConnectorActions.{Uuids}

-- Identifiers in unary.
unfoldable pub tally : ℕ → String
tally zero = String.[]
tally (suc n) = String.◌∷◌ "1" (tally n)

unfoldable pub count : String → ℕ
count String.[] = zero
count (String.◌∷◌ c s) = suc (count s)

pub count-tally : (n : ℕ) → count (tally n) ≡ n
unfolding count tally
count-tally zero = refl
count-tally (suc n) = ap suc (count-tally n)

abbrev pub uuids : Uuids
uuids = record {
  to_string = tally;
  parse = λ s. some (count s);
  parse-to_string = λ n. ap some (count-tally n);
}
