-- ===== src/Channels/Durations.antt =====
-- internal/channels/outbox_dispatcher.go: the durations and the 64-bit floats that a retry is computed in. A
-- finite float is a whole number over a power of two; NaN and infinities are left out. How an exact result
-- is rounded to a float, and what becomes of a float that is too large for a duration, are parameters.
use heimdall.Base.{ℕ, zero, suc, ◌+◌, ◌-◌, ◌*◌, ◌/◌, ◌^◌, Bool, true, false, ltb, if◌then◌else◌}

-- A `time.Duration`, in nanoseconds; `negsuc n` is -(n + 1).
pub data ℤ : Type 0 where
  pos negsuc : ℕ → ℤ

-- `mantissa / 2 ^ scale`
pub record Float : Type 0 where
  pub mantissa : ℤ
  pub scale : ℕ

abbrev pub negate : ℕ → ℤ
negate zero = pos 0
negate (suc n) = negsuc n

infixl 70 ◌*ℤ◌
abbrev pub ◌*ℤ◌ : ℤ → ℤ → ℤ
pos a *ℤ pos b = pos (a * b)
pos a *ℤ negsuc b = negate (a * suc b)
negsuc a *ℤ pos b = negate (suc a * b)
negsuc a *ℤ negsuc b = pos (suc a * suc b)

abbrev pub add_nat : ℤ → ℕ → ℤ
add_nat (pos a) n = pos (a + n)
add_nat (negsuc a) n = if ltb a n then pos (n - suc a) else negsuc (a - n)

abbrev pub whole : ℤ → Float
whole n = record { mantissa = n; scale = 0 }

abbrev pub exact_product : Float → Float → Float
exact_product f g = record { mantissa = f.mantissa *ℤ g.mantissa; scale = f.scale + g.scale }

abbrev pub exact_one_plus : Float → Float
exact_one_plus f = record f { mantissa = add_nat f.mantissa (2 ^ f.scale) }

abbrev pub divide : ℤ → ℕ → ℤ
divide (pos a) n = pos (a / n)
divide (negsuc a) n = negate (suc a / n)

-- The conversion of a float to a whole number drops the fraction.
abbrev pub truncated : Float → ℤ
truncated f = divide f.mantissa (2 ^ f.scale)

abbrev pub fits : ℤ → Bool
fits (pos a) = ltb a (2 ^ 63)
fits (negsuc a) = ltb a (2 ^ 63)

abbrev pub is_negative : ℤ → Bool
is_negative (pos a) = false
is_negative (negsuc a) = true

abbrev pub is_above : ℤ → ℕ → Bool
is_above (pos a) n = ltb n a
is_above (negsuc a) n = false

-- The clamps of `JitterFraction` and of the drawn jitter.
unfoldable pub clamp_unit : Float → Float
clamp_unit f =
    if is_negative f.mantissa
    then whole (pos 0)
    else if is_above f.mantissa (2 ^ f.scale)
    then whole (pos 1)
    else f

-- `if delay > max`
abbrev pub at_most : ℕ → ℤ → ℤ
at_most max delay = if is_above delay max then pos max else delay

-- `if retryAfter, ok := OutboxRetryAfter(err); ok && retryAfter > retryDelay`; 0 is that there is none.
abbrev pub at_least : ℕ → ℤ → ℤ
at_least zero delay = delay
at_least (suc wanted) (pos n) = if ltb n (suc wanted) then pos (suc wanted) else pos n
at_least (suc wanted) (negsuc n) = pos (suc wanted)

-- `now.Add`
abbrev pub later : ℕ → ℤ → ℕ
later now (pos n) = now + n
later now (negsuc n) = now - suc n
