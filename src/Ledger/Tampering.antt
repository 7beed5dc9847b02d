-- ===== src/Ledger/Tampering.antt =====
-- The head hash of a verified ledger pins the whole ledger, unless SHA-256 collides.
use kratos_agent_guard.Prelude.{
  ℕ, ◌+◌, ◌<◌, String, ◌≡◌, ◌≢◌, ◌⊎◌, refl, sym, ap, ◌∙◌, inl, inr, Option, some, List, [], ◌∷◌,
  arith, length,
}
use kratos_agent_guard.Json.{Json, obj, str, sort_keys, Json-discrete, field}
use kratos_agent_guard.Failure.{ok}
use kratos_agent_guard.Models.{LedgerEntry}
use kratos_agent_guard.Primitives.{Primitives}
use kratos_agent_guard.Signing.Trust.{TrustPath}
use kratos_agent_guard.Ledger.Verify.{
  Line, zero_hash, ledger_hash, signed_fields, verify_ledger, LedgerVerification,
  pass_ledger_verified,
}
use kratos_agent_guard.Ledger.Chain.{Reads, Chained, Accepts}
use kratos_agent_guard.Ledger.Passing.{last_hash, verify_ledger_sound}

module _ (p : Primitives) where
  -- Two different JSON values whose canonical texts have one digest.
  pub record Collision : Type 0 where
    pub one : Json
    pub other : Json
    pub differ : one ≢ other
    pub same_digest : p.sha256 (p.dumps one) ≡ p.sha256 (p.dumps other)

  -- Two entries that agree in every field, the payload up to the order of its keys, and the
  -- time as it is written.
  pub record SameEntry (a b : LedgerEntry) : Type 0 where
    pub sequence : a.sequence ≡ b.sequence
    pub recorded_at : p.isoformat a.recorded_at ≡ p.isoformat b.recorded_at
    pub event_type : a.event_type ≡ b.event_type
    pub subject : a.subject ≡ b.subject
    pub payload : sort_keys a.payload ≡ sort_keys b.payload
    pub previous_entry_hash : a.previous_entry_hash ≡ b.previous_entry_hash
    pub signing_key_id : a.signing_key_id ≡ b.signing_key_id
    pub signature : a.signature ≡ b.signature
    pub entry_hash : a.entry_hash ≡ b.entry_hash

  abbrev pub SameEntries : List LedgerEntry → List LedgerEntry → Type 0
  SameEntries [] [] = Unit
  SameEntries [] (b ∷ bs) = ⊥
  SameEntries (a ∷ us) [] = ⊥
  SameEntries (a ∷ us) (b ∷ bs) = SameEntry a b × SameEntries us bs

  -- The value that is hashed, with its keys sorted.
  hashed_value : LedgerEntry → Json
  hashed_value e = sort_keys (obj (field "signature" (str e.signature) (signed_fields p e)))

  hashed_value-injective :
      (a b : LedgerEntry)
      → hashed_value a ≡ hashed_value b
      → a.entry_hash ≡ b.entry_hash
      → SameEntry a b
  unfolding hashed_value sort_keys
  hashed_value-injective a b h e = ground arith

  same_hash :
      (a b : LedgerEntry)
      → ledger_hash p a ≡ ledger_hash p b
      → (hashed_value a ≡ hashed_value b) ⊎ Collision
  unfolding hashed_value ledger_hash
  same_hash a b h = elim (Json-discrete (hashed_value a) (hashed_value b)) [
    | yes same ↦ inl same
    | no differ ↦
        inr (record {
          one = hashed_value a;
          other = hashed_value b;
          differ = differ;
          same_digest = h;
        })
  ]

  -- Two accepted entries with one hash are the same entry.
  same_entry :
      (trust trust' : TrustPath) (c c' : ℕ) (h h' k k' : String) (a b : LedgerEntry)
      → Accepts p trust c h k a
      → Accepts p trust' c' h' k' b
      → a.entry_hash ≡ b.entry_hash
      → SameEntry a b ⊎ Collision
  same_entry trust trust' c c' h h' k k' a b x y e =
      elim (same_hash a b (x.hashed ∙ e ∙ sym y.hashed)) [
        | inl same ↦ inl (hashed_value-injective a b same e)
        | inr collision ↦ inr collision
      ]

  -- The last entry of a chain: its hash is the head, its number the length.
  last_accepted :
      (trust : TrustPath) (c : ℕ) (h k : String) (e : LedgerEntry) (es : List LedgerEntry)
      → Chained p trust c h k (e ∷ es)
      → (l : LedgerEntry) × (h' k' : String) × Accepts p trust (c + length (e ∷ es)) h' k' l
        × (l.entry_hash ≡ last_hash h (e ∷ es))
  last_accepted trust c h k e [] x =
      let at : c + 1 ≡ c + length (e ∷ []) = omega arith in (e, h, k, rw (← at) x.0, refl)
  last_accepted trust c h k e (f ∷ fs) x =
      let (l, h', k', accepts, last) =
        last_accepted trust (c + 1) e.entry_hash e.signing_key_id f fs x.1 in
      let at : c + 1 + length (f ∷ fs) ≡ c + length (e ∷ f ∷ fs) = omega arith in
      (l, h', k', rw (← at) accepts, last)

  -- Two chains of one length that end in one hash.
  same_length_same :
      (trust trust' : TrustPath) (c c' : ℕ) (h h' k k' : String) (es fs : List LedgerEntry)
      → Chained p trust c h k es
      → Chained p trust' c' h' k' fs
      → length es ≡ length fs
      → last_hash h es ≡ last_hash h' fs
      → (SameEntries es fs × (h ≡ h')) ⊎ Collision
  same_length_same trust trust' c c' h h' k k' [] [] x y n e = inl (tt, e)
  same_length_same trust trust' c c' h h' k k' [] (f ∷ fs) x y n e = absurd (omega arith)
  same_length_same trust trust' c c' h h' k k' (a ∷ es) [] x y n e = absurd (omega arith)
  same_length_same trust trust' c c' h h' k k' (a ∷ es) (b ∷ fs) x y n e =
      elim (same_length_same trust trust' (c + 1) (c' + 1) a.entry_hash b.entry_hash
        a.signing_key_id b.signing_key_id es fs x.1 y.1 (omega arith) e) [
          | inr collision ↦ inr collision
          | inl (rest, same) ↦
              elim (same_entry trust trust' (c + 1) (c' + 1) h h' k k' a b x.0 y.0 same) [
                | inr collision ↦ inr collision
                | inl first ↦
                    inl ((first, rest), sym x.0.linked ∙ first.previous_entry_hash ∙ y.0.linked)
              ]
        ]

  chains_with_one_head :
      (trust trust' : TrustPath) (es fs : List LedgerEntry)
      → Chained p trust 0 zero_hash "" es
      → Chained p trust' 0 zero_hash "" fs
      → 0 < length es
      → 0 < length fs
      → last_hash zero_hash es ≡ last_hash zero_hash fs
      → SameEntries es fs ⊎ Collision
  chains_with_one_head trust trust' [] fs x y m n e = absurd (omega arith)
  chains_with_one_head trust trust' (a ∷ es) [] x y m n e = absurd (omega arith)
  chains_with_one_head trust trust' (a ∷ es) (b ∷ fs) x y m n e =
      let (l, h, k, accepts, last) = last_accepted trust 0 zero_hash "" a es x in
      let (l', h', k', accepts', last') = last_accepted trust' 0 zero_hash "" b fs y in
      elim (same_entry trust trust' _ _ h h' k k' l l' accepts accepts' (last ∙ e ∙ sym last')) [
        | inr collision ↦ inr collision
        | inl same ↦
            let one_length : length (a ∷ es) ≡ length (b ∷ fs) =
              omega (arith, accepts.counted, accepts'.counted, same.sequence) in
            elim (same_length_same trust trust' 0 0 zero_hash zero_hash "" "" (a ∷ es) (b ∷ fs) x y
              one_length e) [ inr collision ↦ inr collision | inl (entries, _) ↦ inl entries ]
      ]

  -- If two ledger files are passed, under whatever trust, with one head hash, they hold the same
  -- entries, or there are two different JSON values whose canonical texts have one SHA-256 digest.
  pub head_hash_pins_ledger :
      (file file' : Option (List Line)) (trust trust' : TrustPath) (v v' : LedgerVerification)
      → verify_ledger p file trust ≡ ok v
      → verify_ledger p file' trust' ≡ ok v'
      → v.verdict ≡ pass_ledger_verified
      → v'.verdict ≡ pass_ledger_verified
      → v.head_hash ≡ v'.head_hash
      → (ls ls' : List Line) × (es es' : List LedgerEntry) × (file ≡ some ls)
        × (file' ≡ some ls')
        × Reads p ls es
        × Reads p ls' es'
        × (SameEntries es es' ⊎ Collision)
  head_hash_pins_ledger file file' trust trust' v v' h h' pass pass' same =
      let (ls, es, there, r, c, n, is) = verify_ledger_sound p trust file v h pass in
      let (ls', es', there', r', c', n', is') = verify_ledger_sound p trust' file' v' h' pass' in
      let head = λ (x : LedgerVerification). x.head_hash in
      (
        ls,
        ls',
        es,
        es',
        there,
        there',
        r,
        r',
        chains_with_one_head trust trust' es es' c c' n n' (sym (ap head is) ∙ same ∙ ap head is'),
      )
