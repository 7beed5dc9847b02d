-- ===== src/Ledger/Passing.antt =====
-- `verify_ledger` passes a file exactly when its entries form a chain.
use mathlib.Core.Path.{subst}
use kratos_agent_guard.Prelude.{
  ℕ, ◌+◌, ◌<◌, String, ◌≡◌, refl, sym, ap, ◌∙◌, inl, inr, Bool, true, false, ◌&&◌, Option, none,
  some, List, [], ◌∷◌, arith, length, Bool-cases,
}
use kratos_agent_guard.Failure.{ok, Result-cases, ok-injective}
use kratos_agent_guard.Models.{LedgerEntry, signature_valid}
use kratos_agent_guard.Primitives.{Primitives}
use kratos_agent_guard.Signing.Trust.{TrustPath, is_valid}
use kratos_agent_guard.Ledger.Verify.{
  Line, is_blank, Scan, start, proceed, break_off, chain_valid, is_chain_valid, check_line,
  check_entry, check_signature, scan_lines, conclude, verify_ledger, zero_hash, LedgerVerification,
  pass_ledger_verified,
}
use kratos_agent_guard.Ledger.Chain.{
  Reads, end, blank, entry, Chained, advance, check_line-Accepts, check_line-proceed,
}

-- The loop's variables behind the entries that it accepted.
abbrev pub advance_all : Scan → List LedgerEntry → Scan
advance_all s [] = s
advance_all s (e ∷ es) = advance_all (advance s e) es

abbrev pub last_hash : String → List LedgerEntry → String
last_hash h [] = h
last_hash h (e ∷ es) = last_hash e.entry_hash es

abbrev is_good : Scan → Bool
is_good s = is_chain_valid s.chain_state && is_valid s.signature_state

module _ (p : Primitives) (trust : TrustPath) where
  pub scan_lines_complete :
      (n : ℕ) (s : Scan) {ls : List Line} {es : List LedgerEntry}
      → Reads p ls es
      → Chained p trust s.count s.previous_hash s.previous_key_id es
      → scan_lines p trust n s ls ≡ ok (advance_all s es)
  unfolding scan_lines
  scan_lines_complete n s end c = refl
  scan_lines_complete n s (blank skipped r) c =
      rw (skipped, scan_lines) (scan_lines_complete (n + 1) s r c)
  scan_lines_complete n s (entry {l = l} {e = e} kept parsed r) c =
      rw (kept, scan_lines)
        (rw (check_line-Accepts p trust s n l e parsed c.0)
          (scan_lines_complete (n + 1) (advance s e) r c.1))

  -- A loop that was left by `break` has recorded an error.
  check_line-break :
      (n : ℕ) (s s' : Scan) (l : Line)
      → check_line p trust s n l ≡ ok (break_off s')
      → is_good s' ≡ false
  unfolding check_line check_entry check_signature
  check_line-break n s s' l h = ground arith

  pub scan_lines_sound :
      (n : ℕ) (s s' : Scan) (ls : List Line)
      → scan_lines p trust n s ls ≡ ok s'
      → is_good s' ≡ true
      → (es : List LedgerEntry) × Reads p ls es
        × Chained p trust s.count s.previous_hash s.previous_key_id es
        × (advance_all s es ≡ s')
  unfolding scan_lines
  scan_lines_sound n s s' [] h good = ([], end, tt, ground arith)
  scan_lines_sound n s s' (l ∷ ls) h good = elim (Bool-cases (is_blank l)) [
    | inl skipped ↦
        let (es, r, c, same) =
          scan_lines_sound (n + 1) s s' ls (rw (skipped, scan_lines) at h) good in
        (es, blank skipped r, c, same)
    | inr kept ↦ elim (Result-cases (check_line p trust s n l)) [
      | inr (x, failed) ↦ cc (rw (kept, failed, scan_lines) at h)
      | inl (break_off t, stopped) ↦
          cc (rw (kept, stopped, scan_lines) at h, check_line-break n s t l stopped, good)
      | inl (proceed t, checked) ↦
          let (e, parsed, accepts, same) = check_line-proceed p trust s t n l checked in
          let (es, r, c, same') =
            scan_lines_sound (n + 1) t s' ls (rw (kept, checked, scan_lines) at h) good in
          (
            e ∷ es,
            entry kept parsed r,
            (
              accepts,
              subst (λ (x : Scan). Chained p trust x.count x.previous_hash x.previous_key_id es)
                  (sym same) c,
            ),
            ap (λ (x : Scan). advance_all x es) same ∙ same',
          )
    ]
  ]

  advance_all-fields :
      (s : Scan) (es : List LedgerEntry)
      → ((advance_all s es).count ≡ s.count + length es)
        × ((advance_all s es).head_hash ≡ last_hash s.head_hash es)
        × ((advance_all s es).chain_state ≡ s.chain_state)
        × ((advance_all s es).signature_state ≡ s.signature_state)
        × ((advance_all s es).first_error ≡ s.first_error)
  advance_all-fields s [] = (omega arith, refl, refl, refl, refl)
  advance_all-fields s (e ∷ es) =
      let (c, h, x, y, z) = advance_all-fields (advance s e) es in (omega arith, h, x, y, z)

  -- What `verify_ledger` answers for a file whose entries form a chain.
  abbrev pub passed : List LedgerEntry → LedgerVerification
  passed es = record {
    entry_count = length es;
    head_hash = last_hash zero_hash es;
    chain_state = chain_valid;
    signature_state = signature_valid;
    first_error = none;
    verdict = pass_ledger_verified;
  }

  conclude-advance_all :
      (es : List LedgerEntry) → 0 < length es → conclude p (advance_all start es) ≡ passed es
  unfolding conclude
  conclude-advance_all es more = ground (arith, advance_all-fields start es)

  -- A file with at least one entry, whose entries form a chain, is passed: with their number, the
  -- hash of the last and no error.
  pub verify_ledger_complete :
      (ls : List Line) (es : List LedgerEntry)
      → Reads p ls es
      → Chained p trust 0 zero_hash "" es
      → 0 < length es
      → verify_ledger p (some ls) trust ≡ ok (passed es)
  unfolding verify_ledger
  verify_ledger_complete ls es r c more =
      rw (scan_lines_complete 1 start r c) (ap ok (conclude-advance_all es more))

  conclude-pass :
      (s : Scan)
      → (conclude p s).verdict ≡ pass_ledger_verified
      → (0 < s.count) × (is_good s ≡ true)
  unfolding conclude
  conclude-pass s h = ground arith

  -- A file that is passed holds at least one entry, its entries form a chain, and the answer gives
  -- their number and the hash of the last.
  pub verify_ledger_sound :
      (file : Option (List Line)) (v : LedgerVerification)
      → verify_ledger p file trust ≡ ok v
      → v.verdict ≡ pass_ledger_verified
      → (ls : List Line) × (es : List LedgerEntry) × (file ≡ some ls)
        × Reads p ls es
        × Chained p trust 0 zero_hash "" es
        × (0 < length es)
        × (v ≡ passed es)
  unfolding verify_ledger
  verify_ledger_sound none v h pass = cc (h, pass)
  verify_ledger_sound (some ls) v h pass = elim (Result-cases (scan_lines p trust 1 start ls)) [
    | inr (x, failed) ↦ cc (rw (failed, verify_ledger) at h)
    | inl (s, scanned) ↦
        let same : conclude p s ≡ v = ok-injective (rw (scanned, verify_ledger) at h) in
        let (more, good) =
          conclude-pass s (ap (λ (x : LedgerVerification). x.verdict) same ∙ pass) in
        let (es, r, c, ends) = scan_lines_sound 1 start s ls scanned good in
        let enough : 0 < length es =
          omega (arith, (advance_all-fields start es).0, ap (λ (x : Scan). x.count) ends, more) in
        (
          ls,
          es,
          refl,
          r,
          c,
          enough,
          sym same ∙ ap (conclude p) (sym ends) ∙ conclude-advance_all es enough,
        )
  ]
