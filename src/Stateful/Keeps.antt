-- ===== src/Stateful/Keeps.antt =====
-- Invariants of methods, one rule for each way to build a method. `P` holds as long as nothing is
-- raised, and `Q` where the method raises.
use mathlib.Core.Path.{subst}
use kratos_agent_guard.Prelude.{◌≡◌, String, Bool, true, false}
use kratos_agent_guard.Failure.{Kind, Failure, Result, ok, err}
use kratos_agent_guard.Stateful.{
  Stateful, proceed, ◌>>=◌, pure, lift, gets, reads, modify, raise_if, when,
}

abbrev pub Post {ℓ κ} :
    {S : Type 0} {A : Type ℓ} → (S → Type κ) → (S → Type κ) → Result A × S → Type κ
Post P Q (ok a, t) = P t
Post P Q (err e, t) = Q t

-- From a state with `P`, `m` returns in one with `P` or raises in one with `Q`.
pub record Keeps {ℓ κ} {S : Type 0} {A : Type ℓ} (P Q : S → Type κ) (m : Stateful S A)
    : Type (ℓ ⊔ κ) where
  pub at : (s : S) → P s → Post P Q (m s)

module _ {ℓ κ} {S : Type 0} {A : Type ℓ} {P Q : S → Type κ} where
  pub Keeps-ok :
      (m : Stateful S A) → Keeps P Q m → (s : S) (a : A) (t : S) → P s → m s ≡ (ok a, t) → P t
  Keeps-ok m k s a t h run = subst (Post P Q) run (k.at s h)

  pub Keeps-pure : (a : A) → Keeps P Q (pure a)
  unfolding pure
  Keeps-pure a = record { at = λ s h. h }

  pub Keeps-gets : (f : S → A) → Keeps P Q (gets f)
  unfolding gets
  Keeps-gets f = record { at = λ s h. h }

module _ {ℓ κ} {S : Type 0} {A : Type ℓ} {P Q : S → Type κ} (weaken : (s : S) → P s → Q s) where
  pub Post-reads : (r : Result A) (s : S) → P s → Post P Q (r, s)
  Post-reads (ok a) s h = h
  Post-reads (err e) s h = weaken s h

  pub Keeps-lift : (r : Result A) → Keeps P Q (lift r)
  unfolding lift
  Keeps-lift r = record { at = Post-reads r }

  pub Keeps-reads : (f : S → Result A) → Keeps P Q (reads f)
  unfolding reads
  Keeps-reads f = record { at = λ s h. Post-reads (f s) s h }

module _ {κ} {S : Type 0} {P Q : S → Type κ} where
  pub Keeps-modify : (f : S → S) → ((s : S) → P s → P (f s)) → Keeps P Q (modify f)
  unfolding modify
  Keeps-modify f k = record { at = k }

  pub Keeps-when : (b : Bool) (m : Stateful S (Unit {0})) → Keeps P Q m → Keeps P Q (when b m)
  unfolding when
  Keeps-when true m k = k
  Keeps-when false m k = Keeps-pure tt

  pub Keeps-raise_if :
      (weaken : (s : S) → P s → Q s) (b : Bool) (k : Kind) (m : String) → Keeps P Q (raise_if b k m)
  unfolding raise_if
  Keeps-raise_if weaken true k m = record { at = weaken }
  Keeps-raise_if weaken false k m = record { at = λ s h. h }

module _ {ℓ μ κ} {S : Type 0} {A : Type ℓ} {B : Type μ} {P Q : S → Type κ} where
  Keeps-proceed :
      (f : A → Stateful S B) (x : Result A × S)
      → ((a : A) → Keeps P Q (f a))
      → Post P Q x
      → Post P Q (proceed f x.0 x.1)
  Keeps-proceed f (ok a, s) kf h = (kf a).at s h
  Keeps-proceed f (err e, s) kf h = h

  pub Keeps-bind :
      (m : Stateful S A) (f : A → Stateful S B)
      → Keeps P Q m
      → ((a : A) → Keeps P Q (f a))
      → Keeps P Q (m >>= f)
  unfolding ◌>>=◌
  Keeps-bind m f km kf = record { at = λ s h. Keeps-proceed f (m s) kf (km.at s h) }

-- A method with one invariant keeps it, whether it returns or raises.
module _ {ℓ κ} {S : Type 0} {A : Type ℓ} (P : S → Type κ) where
  always-post : (x : Result A × S) → Post P P x → P x.1
  always-post (ok a, t) h = h
  always-post (err e, t) h = h

  Post-always : (x : Result A × S) → P x.1 → Post P P x
  Post-always (ok a, t) h = h
  Post-always (err e, t) h = h

module _ {ℓ κ} {S : Type 0} {A : Type ℓ} {P : S → Type κ} where
  pub Keeps-of_always : (m : Stateful S A) → ((s : S) → P s → P (m s).1) → Keeps P P m
  Keeps-of_always m k = record { at = λ s h. Post-always P (m s) (k s h) }

-- From a state with `P`, `m` returns in one with `R` or raises in one with `Q`.
pub record Leads {ℓ κ} {S : Type 0} {A : Type ℓ} (P R Q : S → Type κ) (m : Stateful S A)
    : Type (ℓ ⊔ κ) where
  pub at : (s : S) → P s → Post R Q (m s)

module _ {ℓ κ} {S : Type 0} {A : Type ℓ} {P R Q : S → Type κ} where
  pub Leads-ok :
      (m : Stateful S A) → Leads P R Q m → (s : S) (a : A) (t : S) → P s → m s ≡ (ok a, t) → R t
  Leads-ok m k s a t h run = subst (Post R Q) run (k.at s h)

module _ {ℓ κ} {S : Type 0} {A : Type ℓ} {P R Q : S → Type κ} where
  pub Leads-err :
      (m : Stateful S A)
      → Leads P R Q m
      → (s : S) (x : Failure) (t : S) → P s
      → m s ≡ (err x, t)
      → Q t
  Leads-err m k s x t h run = subst (Post R Q) run (k.at s h)

module _ {ℓ κ} {S : Type 0} {A : Type ℓ} {P Q : S → Type κ} where
  pub Leads-Keeps : (m : Stateful S A) → Keeps P Q m → Leads P P Q m
  Leads-Keeps m k = record { at = k.at }

module _ {ℓ κ} {S : Type 0} {A : Type ℓ} {P R : S → Type κ} where
  pub Leads-always : (m : Stateful S A) → Leads P R R m → (s : S) → P s → R (m s).1
  Leads-always m k s h = always-post R (m s) (k.at s h)

module _ {ℓ κ} {S : Type 0} {A : Type ℓ} (R Q Q' : S → Type κ) where
  Post-raises : (x : Result A × S) → ((s : S) → Q s → Q' s) → Post R Q x → Post R Q' x
  Post-raises (ok a, t) weaken h = h
  Post-raises (err e, t) weaken h = weaken t h

module _ {ℓ κ} {S : Type 0} {A : Type ℓ} {P R Q Q' : S → Type κ} where
  pub Leads-raises : (m : Stateful S A) → ((s : S) → Q s → Q' s) → Leads P R Q m → Leads P R Q' m
  Leads-raises m weaken k = record { at = λ s h. Post-raises R Q Q' (m s) weaken (k.at s h) }

module _ {ℓ κ} {S : Type 0} {A : Type ℓ} (P R Q : S → Type κ) where
  Post-weaken : (x : Result A × S) → ((s : S) → R s → P s) → Post R Q x → Post P Q x
  Post-weaken (ok a, t) weaken h = weaken t h
  Post-weaken (err e, t) weaken h = h

module _ {ℓ κ} {S : Type 0} {A : Type ℓ} {P R Q : S → Type κ} where
  -- What `m` leads to is as good as what it started from.
  pub Keeps-weaken : (m : Stateful S A) → ((s : S) → R s → P s) → Leads P R Q m → Keeps P Q m
  Keeps-weaken m weaken k = record { at = λ s h. Post-weaken P R Q (m s) weaken (k.at s h) }

module _ {κ} {S : Type 0} {P R Q : S → Type κ} where
  pub Leads-modify : (f : S → S) → ((s : S) → P s → R (f s)) → Leads P R Q (modify f)
  unfolding modify
  Leads-modify f k = record { at = k }

module _ {ℓ μ κ} {S : Type 0} {A : Type ℓ} {B : Type μ} {R T Q : S → Type κ} where
  Leads-proceed :
      (f : A → Stateful S B) (x : Result A × S)
      → ((a : A) → Leads R T Q (f a))
      → Post R Q x
      → Post T Q (proceed f x.0 x.1)
  Leads-proceed f (ok a, s) kf h = (kf a).at s h
  Leads-proceed f (err e, s) kf h = h

module _ {ℓ μ κ} {S : Type 0} {A : Type ℓ} {B : Type μ} {P R T Q : S → Type κ} where
  pub Leads-bind :
      (m : Stateful S A) (f : A → Stateful S B)
      → Leads P R Q m
      → ((a : A) → Leads R T Q (f a))
      → Leads P T Q (m >>= f)
  unfolding ◌>>=◌
  Leads-bind m f km kf = record { at = λ s h. Leads-proceed f (m s) kf (km.at s h) }

pub ruleset keeps_rules = (
  Keeps-pure, Keeps-lift, Keeps-gets, Keeps-reads, Keeps-modify, Keeps-when, Keeps-raise_if,
  Keeps-bind,
)
