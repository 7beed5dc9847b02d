-- ===== src/Ledger/Appending.antt =====
-- `append_ledger_entry` (src/kratos_guard/core/standalone.py) extends a verified ledger by one entry
-- that verifies.
use mathlib.Core.Path.{subst}
use kratos_agent_guard.Prelude.{
  ℕ, String, ◌≡◌, sym, ap, ◌∙◌, inl, inr, Option, none, some, List, [], ◌∷◌, ◌++◌,
}
use kratos_agent_guard.Failure.{Failure, Result, ok, err, Result-cases, ok-injective, pair-cases}
use kratos_agent_guard.Models.{LedgerEntry}
use kratos_agent_guard.Primitives.{Primitives, IsSound, written}
use kratos_agent_guard.Signing.Trust.{directory}
use kratos_agent_guard.Signing.Store.{KeyStore, inspect_private, inspect_key, continue-ok}
use kratos_agent_guard.Ledger.Verify.{Line, parse_entry, verify_ledger}
use kratos_agent_guard.Ledger.Chain.{Accepts, Reads}
use kratos_agent_guard.Ledger.Passing.{passed}
use kratos_agent_guard.Ledger.Append.{
  Event, make_entry, pending_entry, read_tail, append_locked, lines_of, LedgerWorld,
  append_ledger_entry,
}
use kratos_agent_guard.Ledger.Lock.{LockContext, LockFile, acquire_lock, release_lock}
use kratos_agent_guard.Ledger.Locking.{acquire_lock-taken, release_lock-own}
use kratos_agent_guard.Ledger.Existing.{IsPublished}
use kratos_agent_guard.Ledger.Extending.{verify_ledger-append}
use kratos_agent_guard.Ledger.Making.{
  sealed_entry-valid, sign_entry-ok, make_entry-ok, read_tail-ok, sealed_entry-Accepts,
}

module _ {p : Primitives} (sound : IsSound p) where
  -- Appending to a file under the store's own published key keeps the store, and gives an entry
  -- with which `verify_ledger` passes the longer file against the local trust directory.
  pub append_locked-verifies :
      (k : String) (s : KeyStore) (file : Option (List Line)) (event : Event) (e : LedgerEntry)
      (u : KeyStore)
      → IsPublished p k s
      → append_locked p file event s ≡ (ok e, u)
      → (u ≡ s)
        × ((es : List LedgerEntry) × Reads p (lines_of file) es
            × (verify_ledger p (some (lines_of file ++ written e ∷ [])) (directory s.trust)
                ≡ ok (passed p (directory s.trust) (es ++ e ∷ []))))
  unfolding append_locked inspect_key
  append_locked-verifies k s file event e u published h =
      elim (Result-cases (inspect_private p s)) [
        | inr (x, failed) ↦ cc (rw (failed, append_locked, inspect_key) at h)
        | inl (f, found) ↦
            let (r, s1, tail, made) =
              continue-ok (read_tail p file s) (λ r. make_entry p r.0 r.1 event f.0)
                (rw (found, append_locked, inspect_key) at h) in
            let (es, reads, chained, ends, count, same) =
              read_tail-ok sound k s published f found file r s1 tail in
            let (signer, signed) = make_entry-ok sound k s published f found r.0 r.1 event e u (
              subst (λ (x : KeyStore). make_entry p r.0 r.1 event f.0 x ≡ (ok e, u)) (sym same)
                made) in
            let (valid, is_made, same') =
              sign_entry-ok sound k s published f found (pending_entry p r.1 r.0 event f.0.key_id) e
                u signed in
            let accepts = sealed_entry-Accepts sound k s published f found r.0 r.1 event signer in
            (
              sym same',
              (
                es,
                reads,
                verify_ledger-append s.trust (lines_of file) es r.0 r.1 e reads chained ends count
                    (subst
                      (λ (x : LedgerEntry).
                        Accepts p (directory s.trust) r.1 r.0.previous_hash r.0.previous_key_id x)
                      is_made accepts)
                    (subst (λ (x : LedgerEntry). parse_entry p (written x) ≡ ok x) is_made
                      (sealed_entry-valid sound (pending_entry p r.1 r.0 event f.0.key_id) k
                        valid)),
              ),
            )
      ]

  module _ (c : LockContext) where
    pub append_ledger_entry-verifies :
        (k : String) (stale_after : ℕ) (again : LockFile) (event : Event) (w w' : LedgerWorld)
        (e : LedgerEntry)
        → IsPublished p k w.store
        → append_ledger_entry p c stale_after again event w ≡ (ok e, w')
        → (w'.store ≡ w.store)
          × (w'.file ≡ some (lines_of w.file ++ written e ∷ []))
          × (w'.lock ≡ none)
          × ((es : List LedgerEntry) × Reads p (lines_of w.file) es
              × (verify_ledger p w'.file (directory w.store.trust)
                  ≡ ok (passed p (directory w.store.trust) (es ++ e ∷ []))))
    unfolding append_ledger_entry
    append_ledger_entry-verifies k stale_after again event w w' e published h =
        elim (pair-cases (acquire_lock c stale_after w.lock again)) [
          | inr (x, l, failed) ↦ cc (rw (failed, append_ledger_entry) at h)
          | inl (own, l, taken) ↦ elim (pair-cases (append_locked p w.file event w.store)) [
            | inr (x, u, failed) ↦ cc (rw (taken, failed, append_ledger_entry) at h)
            | inl (e', u, appended) ↦
                let h1 : (
                  ok e',
                  record w {
                    store = u;
                    file = some (lines_of w.file ++ written e' ∷ []);
                    lock = release_lock c l;
                  },
                )
                    ≡ (ok e, w') =
                  rw (taken, appended, append_ledger_entry) at h in
                let same : e' ≡ e =
                  ok-injective (ap (λ (x : Result LedgerEntry × LedgerWorld). x.0) h1) in
                let world = ap (λ (x : Result LedgerEntry × LedgerWorld). x.1) h1 in
                let grown : w'.file ≡ some (lines_of w.file ++ written e ∷ []) =
                  sym (ap (λ (x : LedgerWorld). x.file) world)
                  ∙ ap (λ x. some (lines_of w.file ++ written x ∷ [])) same in
                let (kept, (es, reads, passes)) =
                  append_locked-verifies k w.store w.file event e u published (
                    subst (λ (x : LedgerEntry). append_locked p w.file event w.store ≡ (ok x, u))
                      same appended) in
                (
                  sym (ap (λ (x : LedgerWorld). x.store) world) ∙ kept,
                  grown,
                  sym (ap (λ (x : LedgerWorld). x.lock) world)
                      ∙ ap (release_lock c)
                          (acquire_lock-taken c stale_after w.lock again own l taken).0
                      ∙ release_lock-own c,
                  (es, reads, rw grown passes),
                )
          ]
        ]

-- A call that raises leaves the ledger file as it was.
pub append_ledger_entry_failed :
    (p : Primitives) (c : LockContext) (stale_after : ℕ) (again : LockFile) (event : Event)
    (w w' : LedgerWorld) (x : Failure)
    → append_ledger_entry p c stale_after again event w ≡ (err x, w')
    → w'.file ≡ w.file
unfolding append_ledger_entry
append_ledger_entry_failed p c stale_after again event w w' x h =
    elim (pair-cases (acquire_lock c stale_after w.lock again)) [
      | inr (y, l, failed) ↦ sym (
          ap (λ (z : Result LedgerEntry × LedgerWorld). z.1.file)
            (rw (failed, append_ledger_entry) at h))
      | inl (own, l, taken) ↦ elim (pair-cases (append_locked p w.file event w.store)) [
        | inl (e, u, appended) ↦ cc (rw (taken, appended, append_ledger_entry) at h)
        | inr (y, u, failed) ↦ sym (
            ap (λ (z : Result LedgerEntry × LedgerWorld). z.1.file)
              (rw (taken, failed, append_ledger_entry) at h))
      ]
    ]
