-- ===== src/Base/Outcome.antt =====
-- Runs of code that may end in a fault of the C++ abstract machine or in an exception that
-- nothing catches; either one ends the process.
use Prim.Native.Nat.{ℕ}
use mathlib.Core.Option.{Option, none, some}
use mathlib.Core.Bool.{Bool, true, false}
use emserver.Base.Tests.{if◌then◌else◌}
use mathlib.Core.Path.{◌≡◌, refl}

pub data Fault : Type 0 where
  -- an access outside of the object, undefined behaviour in C++
  out_of_bounds : Fault
  -- a read or a write through a null pointer
  null_pointer : Fault
  -- std::length_error, which vector::resize throws
  length_error : Fault
  -- boost::bad_any_cast
  bad_any_cast : Fault
  -- an access to an object that has been destroyed
  use_after_free : Fault
  -- a static_cast to a class of which the object is none, undefined behaviour in C++
  bad_static_cast : Fault
  -- std::thread::join of the thread that calls it
  self_join : Fault

-- `stuck` is no value of the program: a loop of the model has used up its fuel.
pub data Run {ℓ} (A : Type ℓ) : Type ℓ where
  done : A → Run A
  crash : Fault → Run A
  stuck : Run A

infixl 5 ◌>>=◌
abbrev pub ◌>>=◌ {ℓ κ} : {A : Type ℓ} {B : Type κ} → Run A → (A → Run B) → Run B
done a >>= f = f a
crash e >>= f = crash e
stuck >>= f = stuck

pub >>=-eq-done {ℓ κ} :
    {A : Type ℓ} {B : Type κ} (m : Run A) (f : A → Run B) {b : B}
    → (m >>= f) ≡ done b
    → (a : A) × (m ≡ done a) × (f a ≡ done b)
>>=-eq-done (done a) f h = (a, refl, h)
>>=-eq-done (crash e) f h = cc
>>=-eq-done stuck f h = cc

pub done-injective {ℓ} : {A : Type ℓ} {a b : A} → done a ≡ done b → a ≡ b
done-injective e = cc e

-- The members of an object, or that they have been destroyed.
pub data Members {ℓ} (A : Type ℓ) : Type ℓ where
  living : A → Members A
  destroyed : Members A

-- A function of the object's class, called on its address. It uses a member.
abbrev pub on_members {ℓ} : {A B : Type ℓ} → (A → Run B) → Members A → Run B
on_members f (living a) = f a
on_members f destroyed = crash use_after_free

-- On from one event to the next: none if the first cannot happen, and a fault ends it.
abbrev pub go_on {ℓ} : {A B : Type ℓ} → Option (Run A) → (A → Option (Run B)) → Option (Run B)
go_on none next = none
go_on (some (done a)) next = next a
go_on (some (crash fault)) next = some (crash fault)
go_on (some stuck) next = some stuck

pub go_on-some {ℓ} :
    {A B : Type ℓ} (o : Option (Run A)) (next : A → Option (Run B)) (r : Run B)
    → go_on o next ≡ some r
    → (x : Run A) × (o ≡ some x) × (go_on (some x) next ≡ some r)
go_on-some none next r e = absurd (cc e)
go_on-some (some x) next r e = (x, refl, e)

-- What has come out of a step that is possible only if `b`.
pub guarded :
    {A : Type 0} (b : Bool) {m x : A} → (if b then some m else none) ≡ some x → (b ≡ true) × (m ≡ x)
guarded true e = (refl, cc e)
guarded false e = absurd (cc e)

-- `P` holds of a value, `E` of a fault.
pub data Post {ℓ} {A : Type ℓ} (P : A → Type 0) (E : Fault → Type 0) : Run A → Type ℓ where
  returns : {a : A} → P a → Post P E (done a)
  faults : {f : Fault} → E f → Post P E (crash f)
  stalls : Post P E stuck

pub Post-bind {ℓ κ} :
    {A : Type ℓ} {B : Type κ} {P : A → Type 0} {Q : B → Type 0} {E : Fault → Type 0} {m : Run A}
    {f : A → Run B}
    → Post P E m
    → ((a : A) → P a → Post Q E (f a))
    → Post Q E (m >>= f)
Post-bind (returns h) k = k _ h
Post-bind (faults h) k = faults h
Post-bind stalls k = stalls

-- What holds of both branches, whichever is taken.
pub if_both :
    {A : Type 0} (P : A → Type 0) (test : Bool) {yes_ no_ : A}
    → P yes_
    → P no_
    → P (if test then yes_ else no_)
if_both P true taken other = taken
if_both P false other taken = taken

-- boost::system::error_code, with the codes that are told apart.
pub data ErrorCode : Type 0 where
  operation_aborted operation_not_supported connection_aborted : ErrorCode
  other_error : ℕ → ErrorCode
