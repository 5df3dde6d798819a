-- ===== src/Base/Calls.antt =====
-- How a call of the source ends, and the monad of calls over a state.
-- A C++ exception leaves the changes made before it in place, so the state is returned either way.
use Prim.Native.Nat.{ℕ}
use mathlib.Core.Bool.{Bool, true, false}
use mathlib.Core.Option.{Option, none, some}

-- The exceptions of aleph.H that the code throws.
pub data Exception : Type 0 where
  not_found duplicated : Exception
  size_fault : ℕ → Exception
  unexpected : Exception

-- Why the process cannot go on: a failed ASSERT, an ERROR, an access outside an object.
pub data Fault : Type 0 where
  assertion error_exit null_pointer out_of_bounds use_after_free : Fault

-- `blocked`: the thread waits for a mutex or a system call that does not return.
pub data Outcome (A : Type 0) : Type 0 where
  done : A → Outcome A
  thrown : Exception → Outcome A
  stopped : Fault → Outcome A
  blocked : Outcome A

-- The macros of aleph.H are outside this repository: whether a failed ASSERT stops the process,
-- and whether ERROR does, are parameters of every call that uses them.
pub record Aleph : Type 0 where
  pub assert_stops : Bool
  pub error_stops : Bool

abbrev pub M : Type 0 → Type 0 → Type 0
M S A = S → Outcome A × S

abbrev pub pure : {S A : Type 0} → A → M S A
pure a s = (done a, s)

-- The second call starts where the first one returned.
abbrev pub after : {S A B : Type 0} → Outcome A × S → (A → M S B) → Outcome B × S
after (done a, s) f = f a s
after (thrown e, s) f = (thrown e, s)
after (stopped x, s) f = (stopped x, s)
after (blocked, s) f = (blocked, s)

infixl 5 ◌>>=◌ ◌>>◌
abbrev pub ◌>>=◌ : {S A B : Type 0} → M S A → (A → M S B) → M S B
◌>>=◌ m f s = after (m s) f

abbrev pub ◌>>◌ : {S B : Type 0} → M S (Unit {0}) → M S B → M S B
◌>>◌ m k s = after (m s) (λ _. k)

abbrev pub get : {S : Type 0} → M S S
get s = (done s, s)

abbrev pub throw : {S A : Type 0} → Exception → M S A
throw e s = (thrown e, s)

abbrev pub stop : {S A : Type 0} → Fault → M S A
stop x s = (stopped x, s)

-- ASSERT(condition)
abbrev pub assert : {S : Type 0} → Aleph → Bool → M S (Unit {0})
assert k true s = (done tt, s)
assert k false s = elim k.assert_stops [ true ↦ (stopped assertion, s) | false ↦ (done tt, s) ]

-- ERROR(...)
abbrev pub error : {S : Type 0} → Aleph → M S (Unit {0})
error k s = elim k.error_stops [ true ↦ (stopped error_exit, s) | false ↦ (done tt, s) ]

-- A property of the state that the first call establishes and the second keeps.
pub after_keeps {ℓ} :
    {S A B : Type 0} (P : S → Type ℓ) (x : Outcome A × S) (f : A → M S B)
    → P x.1
    → ((a : A) (s : S) → P s → P (f a s).1)
    → P (after x f).1
after_keeps P (done a, s) f p keep = keep a s p
after_keeps P (thrown e, s) f p keep = p
after_keeps P (stopped x, s) f p keep = p
after_keeps P (blocked, s) f p keep = p

-- The same where the second call turns one property into another that follows from it.
pub after_gives {ℓ} :
    {S A B : Type 0} (P Q : S → Type ℓ) (x : Outcome A × S) (f : A → M S B)
    → P x.1
    → ((s : S) → P s → Q s)
    → ((a : A) (s : S) → P s → Q (f a s).1)
    → Q (after x f).1
after_gives P Q (done a, s) f p weaken give = give a s p
after_gives P Q (thrown e, s) f p weaken give = weaken s p
after_gives P Q (stopped x, s) f p weaken give = weaken s p
after_gives P Q (blocked, s) f p weaken give = weaken s p

-- A property of the state that both branches keep.
pub choice_keeps {ℓ} :
    {S A : Type 0} (P : S → Type ℓ) (b : Bool) (m n : M S A) (s : S)
    → P (m s).1
    → P (n s).1
    → P ((elim b as (λ _. M S A) [ true ↦ m | false ↦ n ]) s).1
choice_keeps P true m n s p q = p
choice_keeps P false m n s p q = q

pub option_keeps {ℓ} :
    {S A B : Type 0} (P : S → Type ℓ) (o : Option A) (m : M S B) (f : A → M S B) (s : S)
    → P (m s).1
    → ((a : A) → P (f a s).1)
    → P ((elim o as (λ _. M S B) [ none ↦ m | some a ↦ f a ]) s).1
option_keeps P none m f s p q = p
option_keeps P (some a) m f s p q = q a

-- What a call ensures of the state when it returns, and when it throws.
abbrev pub Ends {ℓ} : {S A : Type 0} → (A → S → Type ℓ) → (S → Type ℓ) → Outcome A × S → Type ℓ
Ends R T (done a, s) = R a s
Ends R T (thrown e, s) = T s
Ends R T (stopped x, s) = Unit
Ends R T (blocked, s) = Unit

pub after-Ends {ℓ} :
    {S A B : Type 0} (Q : A → S → Type ℓ) (R : B → S → Type ℓ) (T : S → Type ℓ) (x : Outcome A × S)
    (f : A → M S B)
    → Ends Q T x
    → ((a : A) (s : S) → Q a s → Ends R T (f a s))
    → Ends R T (after x f)
after-Ends Q R T (done a, s) f q next = next a s q
after-Ends Q R T (thrown e, s) f q next = q
after-Ends Q R T (stopped x, s) f q next = tt
after-Ends Q R T (blocked, s) f q next = tt
