-- ===== src/Stateful.antt =====
-- Methods on a state: a result, and the state that is left, also where an exception is raised.
pub mod Keeps
use mathlib.Core.Path.{subst}
use kratos_agent_guard.Prelude.{◌≡◌, refl, sym, ap, String, Bool, true, false, if◌then◌else◌}
use kratos_agent_guard.Failure.{Kind, Result, ok, err, fail, ok-injective}

abbrev pub Stateful {ℓ} : Type 0 → Type ℓ → Type ℓ
Stateful S A = S → Result A × S

module _ {S : Type 0} where
  abbrev pub proceed {ℓ κ} :
      {A : Type ℓ} {B : Type κ} → (A → Stateful S B) → Result A → S → Result B × S
  proceed f (ok a) s = f a s
  proceed f (err e) s = (err e, s)

  infixl 5 ◌>>=◌ ◌>>◌
  unfoldable pub ◌>>=◌ {ℓ κ} :
      {A : Type ℓ} {B : Type κ} → Stateful S A → (A → Stateful S B) → Stateful S B
  ◌>>=◌ m f s = let x = m s in proceed f x.0 x.1

  abbrev pub ◌>>◌ {ℓ} : {B : Type ℓ} → Stateful S (Unit {0}) → Stateful S B → Stateful S B
  m >> k = m >>= λ _. k

  unfoldable pub pure {ℓ} : {A : Type ℓ} → A → Stateful S A
  pure a s = (ok a, s)

  unfoldable pub lift {ℓ} : {A : Type ℓ} → Result A → Stateful S A
  lift r s = (r, s)

  unfoldable pub gets {ℓ} : {A : Type ℓ} → (S → A) → Stateful S A
  gets f s = (ok (f s), s)

  -- A step that reads the state and may raise.
  unfoldable pub reads {ℓ} : {A : Type ℓ} → (S → Result A) → Stateful S A
  reads f s = (f s, s)

  unfoldable pub modify : (S → S) → Stateful S (Unit {0})
  modify f s = (ok tt, f s)

  unfoldable pub raise_if : Bool → Kind → String → Stateful S (Unit {0})
  raise_if b k m s = (if b then fail k m else ok tt, s)

  -- A statement under `if`.
  unfoldable pub when : Bool → Stateful S (Unit {0}) → Stateful S (Unit {0})
  unfolding pure
  when true m = m
  when false m = pure tt

  -- A method that returns went on after its first statement returned.
  pub proceed-ok {ℓ κ} :
      {A : Type ℓ} {B : Type κ} (f : A → Stateful S B) (x : Result A × S) {b : B} {t : S}
      → proceed f x.0 x.1 ≡ (ok b, t)
      → (a : A) × (u : S) × (x ≡ (ok a, u)) × (f a u ≡ (ok b, t))
  proceed-ok f (ok a, u) h = (a, u, refl, h)
  proceed-ok f (err e, u) h = cc

  pub bind-ok {ℓ κ} :
      {A : Type ℓ} {B : Type κ} (m : Stateful S A) (f : A → Stateful S B) (s : S) {b : B} {t : S}
      → (m >>= f) s ≡ (ok b, t)
      → (a : A) × (u : S) × (m s ≡ (ok a, u)) × (f a u ≡ (ok b, t))
  unfolding ◌>>=◌
  bind-ok m f s h = proceed-ok f (m s) h

  pub when-true :
      {b : Bool} (m : Stateful S (Unit {0})) (s : S) {x : Result (Unit {0}) × S}
      → b ≡ true
      → when b m s ≡ x
      → m s ≡ x
  unfolding when
  when-true m s {x} holds h = subst (λ c. when c m s ≡ x) holds h

  pub when-false :
      {b : Bool} (m : Stateful S (Unit {0})) (s : S) {x : Result (Unit {0}) × S}
      → b ≡ false
      → when b m s ≡ x
      → (ok tt, s) ≡ x
  unfolding when pure
  when-false m s {x} fails h = subst (λ c. when c m s ≡ x) fails h

  pub reads-ok {ℓ} :
      {A : Type ℓ} (f : S → Result A) (s : S) {a : A} {t : S}
      → reads f s ≡ (ok a, t)
      → (f s ≡ ok a) × (t ≡ s)
  unfolding reads
  reads-ok {A = A} f s h =
      (ap (λ (x : Result A × S). x.0) h, sym (ap (λ (x : Result A × S). x.1) h))

  pub gets-ok {ℓ} :
      {A : Type ℓ} (f : S → A) (s : S) {a : A} {t : S} → gets f s ≡ (ok a, t) → (f s ≡ a) × (t ≡ s)
  unfolding gets
  gets-ok {A = A} f s h =
      (ok-injective (ap (λ (x : Result A × S). x.0) h), sym (ap (λ (x : Result A × S). x.1) h))

  pub modify-ok : (f : S → S) (s : S) {a : Unit {0}} {t : S} → modify f s ≡ (ok a, t) → t ≡ f s
  unfolding modify
  modify-ok f s h = sym (ap (λ (x : Result (Unit {0}) × S). x.1) h)

  pub lift-ok {ℓ} :
      {A : Type ℓ} (r : Result A) (s : S) {a : A} {t : S}
      → lift r s ≡ (ok a, t)
      → (r ≡ ok a) × (t ≡ s)
  unfolding lift
  lift-ok {A = A} r s h = (ap (λ (x : Result A × S). x.0) h, sym (ap (λ (x : Result A × S). x.1) h))

  pub pure-ok {ℓ} :
      {A : Type ℓ} (x : A) (s : S) {a : A} {t : S} → pure x s ≡ (ok a, t) → (x ≡ a) × (t ≡ s)
  unfolding pure
  pure-ok {A = A} x s h =
      (ok-injective (ap (λ (y : Result A × S). y.0) h), sym (ap (λ (y : Result A × S). y.1) h))

  pub raise_if-ok :
      (b : Bool) (k : Kind) (m : String) (s : S) {a : Unit {0}} {t : S}
      → raise_if b k m s ≡ (ok a, t)
      → (b ≡ false) × (t ≡ s)
  unfolding raise_if
  raise_if-ok true k m s h = cc h
  raise_if-ok false k m s h = (refl, sym (ap (λ (y : Result (Unit {0}) × S). y.1) h))

-- For `unfolding`: the methods compute.
unfoldable pub stateful_steps : Unit {0}
unfolding ◌>>=◌ pure lift gets reads modify raise_if when
stateful_steps = tt
