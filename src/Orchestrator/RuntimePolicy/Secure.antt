-- ===== src/Orchestrator/RuntimePolicy/Secure.antt =====
-- The configuration that is let through is secure.
use heimdall.Base.{
  String, ◌≡◌, refl, subst, inl, inr, Bool, true, false, Option, none, some, List, ◌∷◌, arith, ◌==◌,
  eq_iff, Bool-cases,
}
use heimdall.Base.Result
use heimdall.Base.Text.{trim_space}
use heimdall.Base.Result.{Result, ok, err, ok-injective}
use heimdall.Orchestrator.RuntimePolicy.{
  Json, Fields, Error, bool, str, object, other, mode_path, exec_path, patch_path, bind_path,
  nested_get, nested_set, true_or_set, text_or_set, enforce_true, enforce_text, is_allowed_mode,
  is_local, clone, enforce_runtime_policy, mode_not_allowed, bind_not_local,
}
use heimdall.Orchestrator.RuntimePolicy.Paths.{
  Parts, here, there, nested_get-nested_set, nested_get-apart,
}

bind-ok :
    {A B : Type 0} (r : Result Error A) (f : A → Result Error B) (b : B)
    → Result.◌>>=◌ r f ≡ ok b
    → (a : A) × (r ≡ ok a) × (f a ≡ ok b)
bind-ok (ok a) f b h = (a, refl, h)
bind-ok (err e) f b h = absurd (ground arith)

-- A text that passes the test stands at the path.
abbrev pub HasText : (String → Bool) → List String → Fields → Type 0
HasText test path root = (s : String) × (nested_get root path ≡ ok (some (str s))) × (test s ≡ true)

abbrev pub IsTrue : List String → Fields → Type 0
IsTrue path root = nested_get root path ≡ ok (some (bool true))

-- What stands on paths that part from the given one is kept.
abbrev Kept : List String → Fields → Fields → Type 0
Kept path root out =
    (q : List String) (x : Json)
    → Parts path q
    → nested_get root q ≡ ok (some x)
    → nested_get out q ≡ ok (some x)

true_or_set-IsTrue :
    (part : String) (path : List String) (root out : Fields) (o : Option Json)
    → nested_get root (part ∷ path) ≡ ok o
    → true_or_set root (part ∷ path) o ≡ ok out
    → IsTrue (part ∷ path) out × Kept (part ∷ path) root out
true_or_set-IsTrue part path root out none found h =
    subst (λ t. IsTrue (part ∷ path) t × Kept (part ∷ path) root t)
      (ok-injective {E = Error} (nested_set root (bool true) (part ∷ path)) out h)
      (
        nested_get-nested_set root (bool true) part path,
        (λ q x apart k. nested_get-apart (part ∷ path) q root (bool true) x apart k),
      )
true_or_set-IsTrue part path root out (some (bool true)) found h =
    subst (λ t. IsTrue (part ∷ path) t × Kept (part ∷ path) root t)
      (ok-injective {E = Error} root out h) (found, (λ q x apart k. k))
true_or_set-IsTrue part path root out (some (bool false)) found h = absurd (ground arith)
true_or_set-IsTrue part path root out (some (str s)) found h = absurd (ground arith)
true_or_set-IsTrue part path root out (some (other s)) found h = absurd (ground arith)
true_or_set-IsTrue part path root out (some (object m)) found h = absurd (ground arith)

enforce_true-IsTrue :
    (part : String) (path : List String) (root out : Fields)
    → enforce_true (part ∷ path) root ≡ ok out
    → IsTrue (part ∷ path) out × Kept (part ∷ path) root out
unfolding enforce_true
enforce_true-IsTrue part path root out h =
    let (o, found, rest) =
      bind-ok (nested_get root (part ∷ path)) (true_or_set root (part ∷ path)) out h in
    true_or_set-IsTrue part path root out o found rest

text_or_set-HasText :
    (part : String) (path : List String) (default : String) (e : Error) (test : String → Bool)
    (root out : Fields) (o : Option Json)
    → test default ≡ true
    → nested_get root (part ∷ path) ≡ ok o
    → text_or_set root (part ∷ path) default e test o ≡ ok out
    → HasText test (part ∷ path) out × Kept (part ∷ path) root out
text_or_set-HasText part path default e test root out none passes found h =
    subst (λ t. HasText test (part ∷ path) t × Kept (part ∷ path) root t)
      (ok-injective {E = Error} (nested_set root (str default) (part ∷ path)) out h)
      (
        (default, nested_get-nested_set root (str default) part path, passes),
        (λ q x apart k. nested_get-apart (part ∷ path) q root (str default) x apart k),
      )
text_or_set-HasText part path default e test root out (some (str s)) passes found h =
    elim (Bool-cases (test s)) [
      | inl hit ↦
          subst (λ t. HasText test (part ∷ path) t × Kept (part ∷ path) root t)
            (ok-injective {E = Error} root out (rw hit at h)) ((s, found, hit), (λ q x apart k. k))
      | inr miss ↦
          let refused : ◌≡◌ {A = Result Error Fields} (err e) (ok out) = rw miss at h in
          absurd (ground arith)
    ]
text_or_set-HasText part path default e test root out (some (bool b)) passes found h =
    absurd (ground arith)
text_or_set-HasText part path default e test root out (some (other s)) passes found h =
    absurd (ground arith)
text_or_set-HasText part path default e test root out (some (object m)) passes found h =
    absurd (ground arith)

enforce_text-HasText :
    (part : String) (path : List String) (default : String) (e : Error) (test : String → Bool)
    (root out : Fields)
    → test default ≡ true
    → enforce_text (part ∷ path) default e test root ≡ ok out
    → HasText test (part ∷ path) out × Kept (part ∷ path) root out
unfolding enforce_text
enforce_text-HasText part path default e test root out passes h =
    let (o, found, rest) =
      bind-ok (nested_get root (part ∷ path)) (text_or_set root (part ∷ path) default e test) out
        h in
    text_or_set-HasText part path default e test root out o passes found rest

-- What the policy asks for.
pub record IsSecure (to_lower : String → String) (m : Fields) : Type 0 where
  pub mode : HasText (is_allowed_mode to_lower) mode_path m
  pub executes : IsTrue exec_path m
  pub patches : IsTrue patch_path m
  pub binds : HasText (is_local to_lower) bind_path m

-- What `strings.ToLower` does to the defaults, which are lower case.
pub record KeepsLower (to_lower : String → String) : Type 0 where
  pub mode : to_lower "non-main" ≡ "non-main"
  pub bind : to_lower "loopback" ≡ "loopback"

default_mode :
    (to_lower : String → String) → KeepsLower to_lower → is_allowed_mode to_lower "non-main" ≡ true
unfolding is_allowed_mode trim_space
default_mode to_lower lower = rw lower.mode refl

default_bind :
    (to_lower : String → String) → KeepsLower to_lower → is_local to_lower "loopback" ≡ true
unfolding is_local trim_space
default_bind to_lower lower = rw lower.bind refl

apart_by : (a b : String) (p q : List String) → (a == b) ≡ false → Parts (a ∷ p) (b ∷ q)
apart_by a b p q h = here a b p q (λ e. ground (arith, eq_iff a b))

-- A configuration that is let through is secure, be its sections written out or missing: agents run in
-- a sandbox, tools and patches only in the workspace, and the gateway is bound locally.
pub enforce_runtime_policy-IsSecure :
    (to_lower : String → String) (config : Option Fields) (out : Fields)
    → KeepsLower to_lower
    → enforce_runtime_policy to_lower config ≡ ok out
    → IsSecure to_lower out
unfolding enforce_runtime_policy
enforce_runtime_policy-IsSecure to_lower config out lower h =
    let local = is_local to_lower in
    let last = λ (m : Fields). enforce_text bind_path "loopback" bind_not_local local m in
    let third = λ (m : Fields). Result.◌>>=◌ (enforce_true patch_path m) last in
    let second = λ (m : Fields). Result.◌>>=◌ (enforce_true exec_path m) third in
    let first =
      enforce_text mode_path "non-main" mode_not_allowed (is_allowed_mode to_lower)
        (clone to_lower config) in
    let (m1, h1, r1) = bind-ok first second out h in
    let (m2, h2, r2) = bind-ok (enforce_true exec_path m1) third out r1 in
    let (m3, h3, r3) = bind-ok (enforce_true patch_path m2) last out r2 in
    let ((mode, mode_found, mode_allowed), _) =
      enforce_text-HasText "agents" _ "non-main" mode_not_allowed (is_allowed_mode to_lower)
        (clone to_lower config) m1 (default_mode to_lower lower) h1 in
    let (executes, keeps1) = enforce_true-IsTrue "tools" _ m1 m2 h2 in
    let (patches, keeps2) = enforce_true-IsTrue "tools" _ m2 m3 h3 in
    let (binds, keeps3) =
      enforce_text-HasText "gateway" _ "loopback" bind_not_local local m3 out
        (default_bind to_lower lower) r3 in
    let exec_patch : Parts patch_path exec_path = there "tools" "exec" "exec" _ _ (
      there "exec" "applyPatch" "workspaceOnly" _ _
        (apart_by "applyPatch" "workspaceOnly" _ _ refl)) in
    record {
      mode = (
        mode,
        keeps3 mode_path (str mode) (apart_by "gateway" "agents" _ _ refl) (
            keeps2 mode_path (str mode) (apart_by "tools" "agents" _ _ refl)
              (keeps1 mode_path (str mode) (apart_by "tools" "agents" _ _ refl) mode_found)),
        mode_allowed,
      );
      executes =
          keeps3 exec_path (bool true) (apart_by "gateway" "tools" _ _ refl)
            (keeps2 exec_path (bool true) exec_patch executes);
      patches = keeps3 patch_path (bool true) (apart_by "gateway" "tools" _ _ refl) patches;
      binds = binds;
    }

-- Enforcing the policy again changes nothing.
pub enforce_runtime_policy-again :
    (to_lower : String → String) (config : Option Fields) (out : Fields)
    → KeepsLower to_lower
    → enforce_runtime_policy to_lower config ≡ ok out
    → enforce_runtime_policy to_lower (some out) ≡ ok out
unfolding enforce_runtime_policy enforce_text enforce_true
enforce_runtime_policy-again to_lower config out lower h =
    let secure = enforce_runtime_policy-IsSecure to_lower config out lower h in
    let (mode, mode_found, mode_allowed) = secure.mode in
    let (address, bind_found, bind_local) = secure.binds in
    let executes : nested_get out exec_path ≡ ok (some (bool true)) = secure.executes in
    let patches : nested_get out patch_path ≡ ok (some (bool true)) = secure.patches in
    rw (mode_found, mode_allowed, executes, patches, bind_found, bind_local) refl
