-- ===== src/Common/Effects.antt =====
-- A Go call that returns a value or an error and may write shared state: what was written before
-- an error stays written, so the state comes back beside the error too.
use mathlib.Core.Path.{◌≡◌, refl, sym, subst}
use mathlib.Core.Bool.{Bool, true, false}
use chain_api.Common.Tests.{if◌then◌else◌}
use mathlib.Core.Logic.{◌⊎◌, inl, inr}

pub data Result {ℓ κ} (E : Type ℓ) (A : Type κ) : Type (ℓ ⊔ κ) where
  ok : A → Result E A
  err : E → Result E A

-- Why a Go function stops: it returns an error, or it panics.
pub data Stop {ℓ} (E : Type ℓ) : Type ℓ where
  error : E → Stop E
  panic : Stop E

module _ {ℓ κ} {E : Type ℓ} {A : Type κ} where
  pub ok-injective : {a b : A} → ◌≡◌ {A = Result E A} (ok a) (ok b) → a ≡ b
  ok-injective e = cc

  pub err-injective : {a b : E} → ◌≡◌ {A = Result E A} (err a) (err b) → a ≡ b
  err-injective e = cc

abbrev pub Exec {ℓ} : Type ℓ → Type ℓ → Type ℓ → Type ℓ
Exec S E A = S → Result E A × S

module _ {ℓ} {S E A : Type ℓ} where
  abbrev pub pure : A → Exec S E A
  pure a s = (ok a, s)

  abbrev pub fail : E → Exec S E A
  fail e s = (err e, s)

module _ {ℓ} {S E A B : Type ℓ} where
  abbrev pub continue : (A → Exec S E B) → Result E A × S → Result E B × S
  continue f (ok a, s) = f a s
  continue f (err e, s) = (err e, s)

  infixl 10 ◌>>=◌ ◌>>◌
  abbrev pub ◌>>=◌ : Exec S E A → (A → Exec S E B) → Exec S E B
  ◌>>=◌ m f s = continue f (m s)

  abbrev pub ◌>>◌ : Exec S E A → Exec S E B → Exec S E B
  m >> n = m >>= λ _. n

-- What holds of a call that returned: `Q` of its value and state, or `X` of its error and state.
pub record Post {ℓ} {S E A : Type ℓ} (p : Result E A × S) (Q : A → S → Type ℓ) (X : E → S → Type ℓ)
    : Type ℓ where
  pub at_ok : (a : A) → p.0 ≡ ok a → Q a p.1
  pub at_err : (e : E) → p.0 ≡ err e → X e p.1

module _ {ℓ} {S E A : Type ℓ} where
  pub Post-pure :
      {Q : A → S → Type ℓ} {X : E → S → Type ℓ} (a : A) (s : S) → Q a s → Post (pure a s) Q X
  Post-pure {Q} a s h = record {
    at_ok = λ b e. subst (λ c. Q c s) (ok-injective e) h;
    at_err = λ x e. cc;
  }

  pub Post-fail :
      {Q : A → S → Type ℓ} {X : E → S → Type ℓ} (x : E) (s : S) → X x s → Post (fail x s) Q X
  Post-fail {X} x s h = record {
    at_ok = λ b e. cc;
    at_err = λ y e. subst (λ c. X c s) (err-injective e) h;
  }

  -- A call that returned a value without an error has any postcondition that its state has.
  pub Post_of_ok :
      {Q : A → S → Type ℓ} {X : E → S → Type ℓ} {p : Result E A × S} (a : A)
      → p.0 ≡ ok a
      → Q a p.1
      → Post p Q X
  Post_of_ok {Q} {p = (ok b, s)} a e h = Post-pure b s (subst (λ c. Q c s) (ok-injective (sym e)) h)
  Post_of_ok {p = (err x, s)} a e h = cc

  pub Post-weaken :
      {Q Q' : A → S → Type ℓ} {X X' : E → S → Type ℓ} {p : Result E A × S}
      → Post p Q X
      → ((a : A) → Q a p.1 → Q' a p.1)
      → ((e : E) → X e p.1 → X' e p.1)
      → Post p Q' X'
  Post-weaken h q x = record {
    at_ok = λ a e. q a (h.at_ok a e);
    at_err = λ y e. x y (h.at_err y e);
  }

  pub Post-if :
      {Q : A → S → Type ℓ} {X : E → S → Type ℓ} (b : Bool) (m n : Exec S E A) (s : S)
      → (b ≡ true → Post (m s) Q X)
      → (b ≡ false → Post (n s) Q X)
      → Post ((if b then m else n) s) Q X
  Post-if true m n s hm hn = hm refl
  Post-if false m n s hm hn = hn refl

-- A postcondition of a chain: one of the first call, and one of the rest from there.
pub Post-bind {ℓ} :
    {S E A B : Type ℓ} {P : A → S → Type ℓ} {Q : B → S → Type ℓ} {X : E → S → Type ℓ}
    {f : A → Exec S E B} {p : Result E A × S}
    → Post p P X
    → ((a : A) (s : S) → P a s → Post (f a s) Q X)
    → Post (continue f p) Q X
Post-bind {p = (ok a, s)} h k = k a s (h.at_ok a refl)
Post-bind {p = (err e, s)} h k = Post-fail e s (h.at_err e refl)

module _ {ℓ κ} {E : Type ℓ} {A : Type κ} where
  pub Result-cases : (r : Result E A) → ((a : A) × (r ≡ ok a)) ⊎ ((e : E) × (r ≡ err e))
  Result-cases (ok a) = inl (a, refl)
  Result-cases (err e) = inr (e, refl)

-- The caller's error for a callee's.
module _ {ℓ} {S E E' A : Type ℓ} where
  abbrev pub wrapped : (E → E') → Result E A × S → Result E' A × S
  wrapped g (ok a, s) = (ok a, s)
  wrapped g (err e, s) = (err (g e), s)

  abbrev pub wrap_err : (E → E') → Exec S E A → Exec S E' A
  wrap_err g m s = wrapped g (m s)

  pub Post-wrapped :
      {Q : A → S → Type ℓ} {X : E' → S → Type ℓ} (g : E → E') {p : Result E A × S}
      → Post p Q (λ e s. X (g e) s)
      → Post (wrapped g p) Q X
  Post-wrapped g {p = (ok a, s)} h = Post-pure a s (h.at_ok a refl)
  Post-wrapped g {p = (err e, s)} h = Post-fail (g e) s (h.at_err e refl)
