-- ===== src/Signing/Growth.antt =====
-- Files of the local trust directory are never changed or removed, whether a method of the key
-- store returns or raises.
use mathlib.Core.Option.{none-ne-some}
use kratos_agent_guard.Prelude.{
  String, ◌≡◌, ◌⊎◌, refl, sym, ap, ◌∙◌, Bool, true, false, Option, none, some, arith, eq_iff,
  eq_refl, Option-cases, String-cases, inl, inr, if◌then◌else◌,
}
use kratos_agent_guard.Failure.{Kind, Result, ok, err}
use kratos_agent_guard.Models.{KeyRotationRecord, PublicKeyFile, KeyRevocationRecord}
use kratos_agent_guard.Primitives.{Primitives, Stored, written, foreign}
use kratos_agent_guard.Signing.Trust.{TrustDirectory, public_key_payload}
use kratos_agent_guard.Signing.Store.{
  KeyStore, Action, ◌>>=◌, continue, lift, raise_if, gets, reads, put_key, put_public_key,
  is_rendering, write_public_key, write_local_public_key, keep_trust,
}
use kratos_agent_guard.Signing.Lifecycle.{put_rotation, put_revocation, while_locked}

-- Every file of the first directory stands unchanged in the second.
pub record Grows (d e : TrustDirectory) : Type 0 where
  pub public_key :
      (k : String) (t : Stored PublicKeyFile) → d.public_key k ≡ some t → e.public_key k ≡ some t
  pub rotation :
      (j k : String) (t : Stored KeyRotationRecord)
      → d.rotation j k ≡ some t
      → e.rotation j k ≡ some t
  pub revocation :
      (k : String) (t : Stored KeyRevocationRecord)
      → d.revocation k ≡ some t
      → e.revocation k ≡ some t

pub Grows-refl : (d : TrustDirectory) → Grows d d
Grows-refl d = record { public_key = λ k t h. h; rotation = λ j k t h. h; revocation = λ k t h. h }

pub Grows-trans : {d e f : TrustDirectory} → Grows d e → Grows e f → Grows d f
Grows-trans g h = record {
  public_key = λ k t x. h.public_key k t (g.public_key k t x);
  rotation = λ j k t x. h.rotation j k t (g.rotation j k t x);
  revocation = λ k t x. h.revocation k t (g.revocation k t x);
}

-- Whatever the method's outcome, the trust directory has only grown.
pub record GrowsTrust {ℓ} {A : Type ℓ} (m : Action A) : Type ℓ where
  pub at : (s : KeyStore) → Grows s.trust (m s).1.trust

module _ {ℓ} {A : Type ℓ} where
  pub GrowsTrust-same : (m : Action A) → ((s : KeyStore) → (m s).1.trust ≡ s.trust) → GrowsTrust m
  GrowsTrust-same m same = record { at = λ s. rw (same s) (Grows-refl s.trust) }

module _ {ℓ κ} {A : Type ℓ} {B : Type κ} where
  continue-Grows :
      (r : Result A) (f : A → Action B) (s : KeyStore)
      → ((a : A) → GrowsTrust (f a))
      → Grows s.trust (continue r f s).1.trust
  continue-Grows (ok a) f s k = (k a).at s
  continue-Grows (err e) f s k = Grows-refl s.trust

  pub GrowsTrust-bind :
      (m : Action A) (f : A → Action B)
      → GrowsTrust m
      → ((a : A) → GrowsTrust (f a))
      → GrowsTrust (m >>= f)
  GrowsTrust-bind m f km kf = record {
    at = λ s. Grows-trans (km.at s) (continue-Grows (m s).0 f (m s).1 kf);
  }

module _ {ℓ} {A : Type ℓ} where
  pub GrowsTrust-if :
      (b : Bool) (m n : Action A) → GrowsTrust m → GrowsTrust n → GrowsTrust (if b then m else n)
  GrowsTrust-if true m n km kn = km
  GrowsTrust-if false m n km kn = kn

  pub GrowsTrust-lift : (r : Result A) → GrowsTrust (lift r)
  GrowsTrust-lift r = record { at = λ s. Grows-refl s.trust }

  pub GrowsTrust-gets : (f : KeyStore → A) → GrowsTrust (gets f)
  GrowsTrust-gets f = record { at = λ s. Grows-refl s.trust }

  pub GrowsTrust-reads : (f : KeyStore → Result A) → GrowsTrust (reads f)
  GrowsTrust-reads f = record { at = λ s. Grows-refl s.trust }

  pub GrowsTrust-while_locked : (m : Action A) → GrowsTrust m → GrowsTrust (while_locked m)
  unfolding while_locked
  GrowsTrust-while_locked m km = record { at = λ s. km.at (record s { rotation_lock = true }) }

pub GrowsTrust-raise_if : (b : Bool) (k : Kind) (m : String) → GrowsTrust (raise_if b k m)
GrowsTrust-raise_if b k m = record { at = λ s. Grows-refl s.trust }

put_key-keeps {ℓ} :
    {A : Type ℓ} (f : String → Option A) (k : String) (a : A) (j : String) (t : A)
    → f k ≡ none
    → f j ≡ some t
    → put_key k a f j ≡ some t
put_key-keeps f k a j t free there = elim (String-cases j k) [
  | inl same ↦ absurd (none-ne-some t (sym free ∙ ap f (sym same) ∙ there))
  | inr differ ↦ rw differ there
]

pub put_rotation-Grows :
    (j k : String) (t : Stored KeyRotationRecord) (d : TrustDirectory)
    → d.rotation j k ≡ none
    → Grows d (put_rotation j k t d)
put_rotation-Grows j k t d free = record {
  public_key = λ i u h. h;
  rotation = λ i l u h. elim (String-cases i j) [
    | inl same ↦ rw same (rw (eq_refl j) (put_key-keeps (d.rotation j) k t l u free (rw same at h)))
    | inr differ ↦ rw differ h
  ];
  revocation = λ i u h. h;
}

pub put_revocation-Grows :
    (k : String) (t : Stored KeyRevocationRecord) (d : TrustDirectory)
    → d.revocation k ≡ none
    → Grows d (put_revocation k t d)
put_revocation-Grows k t d free = record {
  public_key = λ i u h. h;
  rotation = λ i l u h. h;
  revocation = λ i u h. put_key-keeps d.revocation k t i u free h;
}

put_public_key-Grows :
    (k : String) (t : Stored PublicKeyFile) (d : TrustDirectory)
    → d.public_key k ≡ none
    → Grows d (put_public_key k t d)
put_public_key-Grows k t d free = record {
  public_key = λ i u h. put_key-keeps d.public_key k t i u free h;
  rotation = λ i l u h. h;
  revocation = λ i u h. h;
}

is_rendering-eq :
    (f : PublicKeyFile) (t : Stored PublicKeyFile) → is_rendering f t ≡ true → t ≡ written f
is_rendering-eq f (written g) h = ground (
  arith,
  eq_iff g.algorithm f.algorithm,
  eq_iff g.key_id f.key_id,
  eq_iff g.public_key_fingerprint f.public_key_fingerprint,
  eq_iff g.public_key_base64 f.public_key_base64,
)
is_rendering-eq f (foreign s) h = cc

module _ (p : Primitives) where
  abbrev payload_of : String → PublicKeyFile
  payload_of = public_key_payload p

  -- A public key file is written where there is none, and otherwise it is already the same.
  pub write_cases :
      (private : String) (d e : TrustDirectory)
      → write_public_key p private d ≡ ok e
      → ((d.public_key (payload_of private).key_id ≡ none)
          × (put_public_key (payload_of private).key_id (written (payload_of private)) d ≡ e))
        ⊎ ((d.public_key (payload_of private).key_id ≡ some (written (payload_of private)))
            × (d ≡ e))
  unfolding write_public_key
  write_cases private d e h = elim (Option-cases (d.public_key (payload_of private).key_id)) [
    | inl free ↦ inl (free, ground arith)
    | inr (text, there) ↦
        inr (ground (arith, is_rendering-eq (payload_of private) text), ground arith)
  ]

  pub write-Grows :
      (private : String) (d e : TrustDirectory) → write_public_key p private d ≡ ok e → Grows d e
  write-Grows private d e h = elim (write_cases private d e h) [
    | inl (free, made) ↦ rw (← made) (put_public_key-Grows _ _ d free)
    | inr (there, same) ↦ rw (← same) (Grows-refl d)
  ]

  -- After a write the file is there.
  pub write-published :
      (private : String) (d e : TrustDirectory)
      → write_public_key p private d ≡ ok e
      → e.public_key (payload_of private).key_id ≡ some (written (payload_of private))
  write-published private d e h = elim (write_cases private d e h) [
    | inl (free, made) ↦ rw (← made) (rw (eq_refl (payload_of private).key_id))
    | inr (there, same) ↦ rw (← same) there
  ]

  keep_trust-Grows :
      (s : KeyStore) (r : Result TrustDirectory)
      → ((e : TrustDirectory) → r ≡ ok e → Grows s.trust e)
      → Grows s.trust (keep_trust r s).1.trust
  keep_trust-Grows s (ok e) g = g e refl
  keep_trust-Grows s (err x) g = Grows-refl s.trust

  pub write_local-GrowsTrust : (private : String) → GrowsTrust (write_local_public_key p private)
  unfolding write_local_public_key
  write_local-GrowsTrust private = record {
    at = λ s. keep_trust-Grows s (write_public_key p private s.trust) (write-Grows private s.trust);
  }
