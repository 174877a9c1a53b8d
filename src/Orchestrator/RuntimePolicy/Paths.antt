-- ===== src/Orchestrator/RuntimePolicy/Paths.antt =====
-- Reading a path back after a write: the written one, and one that parts from it.
use heimdall.Base.{
  String, ◌≡◌, ◌≢◌, refl, Option, none, some, List, [], ◌∷◌, arith, eq_iff, eq_refl,
}
use heimdall.Base.Result.{Result, ok, err}
use heimdall.Orchestrator.RuntimePolicy.{
  Json, Fields, Error, object, bool, str, other, empty, field, not_an_object, get_field, put_field,
  walk, nested_get, nested_set, fields_of,
}

pub get_field-put_field :
    (k : String) (v : Json) (m : Fields) → get_field k (put_field k v m) ≡ some v
unfolding get_field put_field
get_field-put_field k v empty = ground (arith, eq_refl k)
get_field-put_field k v (field j w m) = ground (arith, get_field-put_field k v m)

pub get_field-put_field_other :
    (k j : String) (v : Json) (m : Fields) → j ≢ k → get_field k (put_field j v m) ≡ get_field k m
unfolding get_field put_field
get_field-put_field_other k j v empty apart = ground (arith, eq_iff j k)
get_field-put_field_other k j v (field i w m) apart =
    ground (arith, eq_iff i j, eq_iff i k, eq_iff j k, get_field-put_field_other k j v m apart)

pub nested_get-nested_set :
    (root : Fields) (value : Json) (part : String) (path : List String)
    → nested_get (nested_set root value (part ∷ path)) (part ∷ path) ≡ ok (some value)
unfolding nested_get nested_set walk
nested_get-nested_set root value part [] = rw (get_field-put_field part value root) refl
nested_get-nested_set root value part (next ∷ path) =
    let child = nested_set (fields_of (get_field part root)) value (next ∷ path) in
    rw (get_field-put_field part (object child) root)
      (nested_get-nested_set (fields_of (get_field part root)) value next path)

-- Two paths that part at some key.
pub data Parts : List String → List String → Type 0 where
  here : (a b : String) (p q : List String) → a ≢ b → Parts (a ∷ p) (b ∷ q)
  there :
      (a b c : String) (p q : List String) → Parts (b ∷ p) (c ∷ q) → Parts (a ∷ b ∷ p) (a ∷ c ∷ q)

walk-field_other :
    (a b : String) (v x : Json) (q : List String) (root : Fields)
    → a ≢ b
    → nested_get root (b ∷ q) ≡ ok (some x)
    → nested_get (put_field a v root) (b ∷ q) ≡ ok (some x)
unfolding nested_get walk
walk-field_other a b v x q root apart h = rw (get_field-put_field_other b a v root apart) h

-- Something is found below a key only if an object is there.
below :
    (a c : String) (q : List String) (root : Fields) (x : Json)
    → nested_get root (a ∷ c ∷ q) ≡ ok (some x)
    → nested_get (fields_of (get_field a root)) (c ∷ q) ≡ ok (some x)
unfolding nested_get walk
below a c q root x h = by_field (get_field a root) refl
  where
    by_field :
        (o : Option Json)
        → get_field a root ≡ o
        → nested_get (fields_of (get_field a root)) (c ∷ q) ≡ ok (some x)
    by_field none same = absurd (
        let k : ◌≡◌ {A = Result Error (Option Json)} (ok none) (ok (some x)) = rw same at h in
        ground arith)
    by_field (some (object m)) same = rw same (rw same at h)
    by_field (some (bool b)) same = absurd (
        let k : ◌≡◌ {A = Result Error (Option Json)} (err not_an_object) (ok (some x)) =
          rw same at h in
        ground arith)
    by_field (some (str s)) same = absurd (
        let k : ◌≡◌ {A = Result Error (Option Json)} (err not_an_object) (ok (some x)) =
          rw same at h in
        ground arith)
    by_field (some (other s)) same = absurd (
        let k : ◌≡◌ {A = Result Error (Option Json)} (err not_an_object) (ok (some x)) =
          rw same at h in
        ground arith)

step_down :
    (a c : String) (q : List String) (root child : Fields) (x : Json)
    → nested_get child (c ∷ q) ≡ ok (some x)
    → nested_get (put_field a (object child) root) (a ∷ c ∷ q) ≡ ok (some x)
unfolding nested_get walk
step_down a c q root child x h = rw (get_field-put_field a (object child) root) h

-- A write leaves what is found on a path that parts from it.
pub nested_get-apart :
    (p q : List String) (root : Fields) (v x : Json)
    → Parts p q
    → nested_get root q ≡ ok (some x)
    → nested_get (nested_set root v p) q ≡ ok (some x)
unfolding nested_set
nested_get-apart _ _ root v x (here a b [] q apart) h = walk-field_other a b v x q root apart h
nested_get-apart _ _ root v x (here a b (n ∷ p) q apart) h =
    walk-field_other a b (object (nested_set (fields_of (get_field a root)) v (n ∷ p))) x q root
      apart h
nested_get-apart _ _ root v x (there a b c p q apart) h =
    let child = fields_of (get_field a root) in
    step_down a c q root (nested_set child v (b ∷ p)) x
      (nested_get-apart (b ∷ p) (c ∷ q) child v x apart (below a c q root x h))
