-- ===== src/Base/Tests.antt =====
-- Boolean tests on the native numbers, the conditional, and the case lemmas.
use Prim.Native.Nat.{ℕ, ◌<◌, compare, Ordering}
use mathlib.Core.Path.{◌≡◌, refl}
use mathlib.Core.Logic.{◌⊎◌, inl, inr, ◌≢◌}
use mathlib.Core.Bool.{Bool, true, false}
use mathlib.Core.Option.{Option, none, some}
use native.Mathlib.Omega.{arith}

abbrev pub ltb : ℕ → ℕ → Bool
ltb a b = elim (compare a b) [ Ordering.lt ↦ true | _ ↦ false ]

abbrev pub leb : ℕ → ℕ → Bool
leb a b = elim (compare a b) [ Ordering.gt ↦ false | _ ↦ true ]

infix 50 ◌==◌
abbrev pub ◌==◌ : ℕ → ℕ → Bool
a == b = elim (compare a b) [ Ordering.eq ↦ true | _ ↦ false ]

infix 1 if◌then◌else◌
abbrev pub if◌then◌else◌ {ℓ} : {A : Type ℓ} → Bool → A → A → A
if true then x else y = x
if false then x else y = y

pub ltb→lt : (a b : ℕ) → ltb a b ≡ true → a < b
ltb→lt a b h = ground arith

pub lt→ltb : (a b : ℕ) → a < b → ltb a b ≡ true
lt→ltb a b h = ground arith

pub ==→eq : (a b : ℕ) → (a == b) ≡ true → a ≡ b
==→eq a b h = ground arith

pub eq→== : (a b : ℕ) → a ≡ b → (a == b) ≡ true
eq→== a b h = ground arith

pub ne→== : (a b : ℕ) → a ≢ b → (a == b) ≡ false
ne→== a b h = ground arith

pub ==_refl : (a : ℕ) → (a == a) ≡ true
==_refl a = ground arith

-- To split on a computed value and keep the equation.
pub Bool-cases : (b : Bool) → (b ≡ true) ⊎ (b ≡ false)
Bool-cases true = inl refl
Bool-cases false = inr refl

pub Option-cases {ℓ} : {A : Type ℓ} (o : Option A) → (o ≡ none) ⊎ ((a : A) × (o ≡ some a))
Option-cases none = inl refl
Option-cases (some a) = inr (a, refl)

-- Replacing one value of a table that is indexed by numbers.
abbrev pub update {ℓ} : {A : Type ℓ} → (ℕ → A) → ℕ → A → ℕ → A
update f i a j = if i == j then a else f j

-- A property of both branches holds of the conditional.
pub if_true {ℓ} : {A : Type ℓ} (b : Bool) (x y : A) → b ≡ true → (if b then x else y) ≡ x
if_true b x y h = rw h refl

pub if_false {ℓ} : {A : Type ℓ} (b : Bool) (x y : A) → b ≡ false → (if b then x else y) ≡ y
if_false b x y h = rw h refl

pub if_elim {ℓ κ} :
    {A : Type ℓ} (P : A → Type κ) (b : Bool) (x y : A)
    → (b ≡ true → P x)
    → (b ≡ false → P y)
    → P (if b then x else y)
if_elim P true x y f g = f refl
if_elim P false x y f g = g refl

pub some_inj {ℓ} : {A : Type ℓ} {a b : A} → some a ≡ some b → a ≡ b
some_inj h = cc

pub none_ne_some {ℓ} : {A : Type ℓ} {a : A} → none ≢ some a
none_ne_some h = cc

pub update-same {ℓ} : {A : Type ℓ} (f : ℕ → A) (a : ℕ) (v : A) → update f a v a ≡ v
update-same f a v = rw (==_refl a) refl

pub update-other {ℓ} :
    {A : Type ℓ} (f : ℕ → A) (a b : ℕ) (v : A) → (a == b) ≡ false → update f a v b ≡ f b
update-other f a b v n = rw n refl

-- The next step, on what the one before returned.
infixl 5 ◌>>=◌
abbrev pub ◌>>=◌ {ℓ κ} : {A : Type ℓ} {B : Type κ} → Option A → (A → Option B) → Option B
none >>= f = none
some a >>= f = f a

pub >>=-eq-some {ℓ κ} :
    {A : Type ℓ} {B : Type κ} (m : Option A) (f : A → Option B) {b : B}
    → (m >>= f) ≡ some b
    → (a : A) × (m ≡ some a) × (f a ≡ some b)
>>=-eq-some none f h = cc
>>=-eq-some (some a) f h = (a, refl, h)

pub >>=_assoc {ℓ κ μ} :
    {A : Type ℓ} {B : Type κ} {C : Type μ} (m : Option A) (f : A → Option B) (g : B → Option C)
    {h : A → Option C}
    → ((a : A) → (f a >>= g) ≡ h a)
    → ((m >>= f) >>= g) ≡ (m >>= h)
>>=_assoc none f g e = refl
>>=_assoc (some a) f g e = e a

-- What holds of the result, if there is one.
abbrev pub On {ℓ κ} : {A : Type ℓ} → (A → Type κ) → Option A → Type κ
On P none = Unit
On P (some a) = P a

pub On-bind {ℓ κ} :
    {A B : Type ℓ} (P : A → Type κ) (Q : B → Type κ) (m : Option A) (f : A → Option B)
    → On P m
    → ((a : A) → P a → On Q (f a))
    → On Q (m >>= f)
On-bind P Q none f h k = tt
On-bind P Q (some a) f h k = k a h

pub On-eq {ℓ} : {A : Type ℓ} (m : Option A) → On (λ a. m ≡ some a) m
On-eq none = tt
On-eq (some a) = refl

-- The same, with what the first step returned.
pub On-bind_eq {ℓ} :
    {A B : Type ℓ} (Q : B → Type ℓ) (m : Option A) (f : A → Option B)
    → ((a : A) → m ≡ some a → On Q (f a))
    → On Q (m >>= f)
On-bind_eq Q none f k = tt
On-bind_eq Q (some a) f k = k a refl

pub On-both {ℓ κ} :
    {A : Type ℓ} (P Q : A → Type κ) (m : Option A) → On P m → On Q m → On (λ a. P a × Q a) m
On-both P Q none p q = tt
On-both P Q (some a) p q = (p, q)

pub On-map {ℓ κ} :
    {A : Type ℓ} (P Q : A → Type κ) (m : Option A) → ((a : A) → P a → Q a) → On P m → On Q m
On-map P Q none f p = tt
On-map P Q (some a) f p = f a p
