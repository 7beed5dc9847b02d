-- ===== src/Ledger/Chain.antt =====
-- What a verified ledger is: a chain of entries, each counted, linked, hashed and signed by a key
-- that may follow the one before. `verify_ledger` passes exactly such files.
use kratos_agent_guard.Prelude.{
  ℕ, ◌+◌, String, ◌≡◌, ◌⊎◌, ◌∙◌, inl, inr, true, false, List, [], ◌∷◌, eqb, arith, eq_iff, eq_refl,
  Bool-cases,
}
use kratos_agent_guard.Failure.{ok, Result-cases}
use kratos_agent_guard.Models.{LedgerEntry, SignatureEvidence}
use kratos_agent_guard.Primitives.{Primitives}
use kratos_agent_guard.Signing.Trust.{
  TrustPath, trusted_key_path, verify_payload_signature, key_revocation_state, is_accepted,
  not_revoked,
}
use kratos_agent_guard.Ledger.Verify.{
  Line, is_blank, Scan, proceed, trust_directory, model_signing_bytes, ledger_hash, parse_entry,
  check_transition, check_signature, check_entry, check_line, rotation_in,
}

-- The loop's variables behind an entry that it accepted.
abbrev pub advance : Scan → LedgerEntry → Scan
advance s e = record s {
  count = s.count + 1;
  previous_hash = e.entry_hash;
  previous_key_id = e.signing_key_id;
  head_hash = e.entry_hash;
}

module _ (p : Primitives) where
  -- The lines of the file hold these entries, between blank lines.
  pub data Reads : List Line → List LedgerEntry → Type 0 where
    end : Reads [] []
    blank :
        {l : Line} {ls : List Line} {es : List LedgerEntry}
        → is_blank l ≡ true
        → Reads ls es
        → Reads (l ∷ ls) es
    entry :
        {l : Line} {ls : List Line} {e : LedgerEntry} {es : List LedgerEntry}
        → is_blank l ≡ false
        → parse_entry p l ≡ ok e
        → Reads ls es
        → Reads (l ∷ ls) (e ∷ es)

  -- The signer `new` is the first one, or the one before, or a recorded successor of it.
  abbrev pub MayFollow : TrustPath → String → String → Type 0
  MayFollow trust previous new =
      (previous ≡ "") ⊎ (new ≡ previous) ⊎ (rotation_in p trust previous new ≡ ok true)

  -- An entry that may stand at place `count` behind an entry with this hash and this signer.
  pub record Accepts (trust : TrustPath) (count : ℕ) (hash key : String) (e : LedgerEntry)
      : Type 0 where
    pub counted : e.sequence ≡ count
    pub linked : e.previous_entry_hash ≡ hash
    pub hashed : ledger_hash p e ≡ e.entry_hash
    pub unrevoked : key_revocation_state p e.signing_key_id (trust_directory trust) ≡ ok not_revoked
    pub follows : check_transition p trust key e.signing_key_id ≡ ok true
    pub evidence : SignatureEvidence
    pub verified :
        verify_payload_signature p
          (model_signing_bytes p e)
          e.signature
          (trusted_key_path trust e.signing_key_id)
          e.signing_key_id
        ≡ ok evidence
    pub accepted : is_accepted evidence ≡ true

  abbrev pub Chained : TrustPath → ℕ → String → String → List LedgerEntry → Type 0
  Chained trust count hash key [] = Unit
  Chained trust count hash key (e ∷ es) =
      Accepts trust (count + 1) hash key e
      × Chained trust (count + 1) e.entry_hash e.signing_key_id es

  check_signature-Accepts :
      (trust : TrustPath) (s : Scan) (n : ℕ) (e : LedgerEntry)
      → Accepts trust s.count s.previous_hash s.previous_key_id e
      → check_signature p trust s n e
        ≡ ok (
            proceed (record s {
              previous_hash = e.entry_hash;
              previous_key_id = e.signing_key_id;
              head_hash = e.entry_hash;
            }))
  unfolding check_signature
  check_signature-Accepts trust s n e a = simp (a.follows, a.verified, a.accepted)

  check_entry-Accepts :
      (trust : TrustPath) (s : Scan) (n : ℕ) (e : LedgerEntry)
      → Accepts trust s.count s.previous_hash s.previous_key_id e
      → check_entry p trust s n e ≡ check_signature p trust s n e
  unfolding check_entry
  check_entry-Accepts trust s n e a =
      let counted : eqb e.sequence s.count ≡ true = ground (arith, a.counted) in
      simp (counted, a.linked, a.hashed, a.unrevoked, eq_refl)

  pub check_line-Accepts :
      (trust : TrustPath) (s : Scan) (n : ℕ) (l : Line) (e : LedgerEntry)
      → parse_entry p l ≡ ok e
      → Accepts trust (s.count + 1) s.previous_hash s.previous_key_id e
      → check_line p trust s n l ≡ ok (proceed (advance s e))
  unfolding check_line
  check_line-Accepts trust s n l e h a =
      let s1 = record s { count = s.count + 1 } in
      rw h (check_entry-Accepts trust s1 n e a ∙ check_signature-Accepts trust s1 n e a)

  check_signature-proceed :
      (trust : TrustPath) (s s' : Scan) (n : ℕ) (e : LedgerEntry)
      → check_signature p trust s n e ≡ ok (proceed s')
      → (check_transition p trust s.previous_key_id e.signing_key_id ≡ ok true)
        × ((v : SignatureEvidence) × (verify_payload_signature p
                (model_signing_bytes p e)
                e.signature
                (trusted_key_path trust e.signing_key_id)
                e.signing_key_id
              ≡ ok v)
            × (is_accepted v ≡ true))
        × (record s {
          previous_hash = e.entry_hash;
          previous_key_id = e.signing_key_id;
          head_hash = e.entry_hash;
        }
            ≡ s')
  unfolding check_signature
  check_signature-proceed trust s s' n e h =
      elim (Result-cases (check_transition p trust s.previous_key_id e.signing_key_id)) [
        | inr (x, refused) ↦ cc (rw (refused, check_signature) at h)
        | inl (false, refused) ↦ cc (rw (refused, check_signature) at h)
        | inl (true, follows) ↦
            elim (Result-cases (
              verify_payload_signature p (model_signing_bytes p e) e.signature
                (trusted_key_path trust e.signing_key_id) e.signing_key_id)) [
                  | inr (x, refused) ↦ cc (rw (follows, refused, check_signature) at h)
                  | inl (v, verified) ↦ elim (Bool-cases (is_accepted v)) [
                    | inr refused ↦ ground arith
                    | inl accepted ↦ (follows, (v, verified, accepted), ground arith)
                  ]
                ]
      ]

  check_entry-proceed :
      (trust : TrustPath) (s s' : Scan) (n : ℕ) (e : LedgerEntry)
      → check_entry p trust s n e ≡ ok (proceed s')
      → (e.sequence ≡ s.count)
        × (e.previous_entry_hash ≡ s.previous_hash)
        × (ledger_hash p e ≡ e.entry_hash)
        × (key_revocation_state p e.signing_key_id (trust_directory trust) ≡ ok not_revoked)
        × (check_signature p trust s n e ≡ ok (proceed s'))
  unfolding check_entry
  check_entry-proceed trust s s' n e h =
      ground
        (arith, eq_iff e.previous_entry_hash s.previous_hash, eq_iff (ledger_hash p e) e.entry_hash)

  pub check_line-proceed :
      (trust : TrustPath) (s s' : Scan) (n : ℕ) (l : Line)
      → check_line p trust s n l ≡ ok (proceed s')
      → (e : LedgerEntry) × (parse_entry p l ≡ ok e)
        × Accepts trust (s.count + 1) s.previous_hash s.previous_key_id e
        × (advance s e ≡ s')
  unfolding check_line
  check_line-proceed trust s s' n l h = elim (Result-cases (parse_entry p l)) [
    | inr (x, refused) ↦ cc (rw (refused, check_line) at h)
    | inl (e, parsed) ↦
        let s1 = record s { count = s.count + 1 } in
        let (counted, linked, hashed, unrevoked, rest) =
          check_entry-proceed trust s1 s' n e (rw (parsed, check_line) at h) in
        let (follows, (v, verified, accepted), same) =
          check_signature-proceed trust s1 s' n e rest in
        (
          e,
          parsed,
          record {
            counted = counted;
            linked = linked;
            hashed = hashed;
            unrevoked = unrevoked;
            follows = follows;
            evidence = v;
            verified = verified;
            accepted = accepted;
          },
          same,
        )
  ]
