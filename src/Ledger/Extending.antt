-- ===== src/Ledger/Extending.antt =====
-- A verified ledger and one more entry that may stand behind its last one (`verify_ledger` of
-- src/kratos_guard/core/standalone.py).
use mathlib.Core.Path.{subst}
use kratos_agent_guard.Prelude.{
  ℕ, ◌+◌, ◌<◌, ◌≡◌, refl, sym, some, List, [], ◌∷◌, ◌++◌, arith, length,
}
use kratos_agent_guard.Failure.{ok}
use kratos_agent_guard.Models.{LedgerEntry}
use kratos_agent_guard.Primitives.{Primitives, written}
use kratos_agent_guard.Signing.Trust.{TrustDirectory, directory}
use kratos_agent_guard.Ledger.Verify.{Line, parse_entry, verify_ledger, zero_hash}
use kratos_agent_guard.Ledger.Chain.{Accepts, Chained, Reads, end, blank, entry}
use kratos_agent_guard.Ledger.Passing.{passed, verify_ledger_complete}
use kratos_agent_guard.Ledger.Append.{Tail, no_tail}
use kratos_agent_guard.Ledger.Existing.{tail_of, tail_after}

Reads-append :
    {p : Primitives} {ls : List Line} {es : List LedgerEntry} (e : LedgerEntry)
    → Reads p ls es
    → parse_entry p (written e) ≡ ok e
    → Reads p (ls ++ written e ∷ []) (es ++ e ∷ [])
Reads-append e end h = entry refl h end
Reads-append e (blank skipped r) h = blank skipped (Reads-append e r h)
Reads-append e (entry kept parsed r) h = entry kept parsed (Reads-append e r h)

-- A chain goes on with an entry that may stand behind its last one.
Chained-append :
    {p : Primitives} (d : TrustDirectory) (n m : ℕ) (t : Tail) (es : List LedgerEntry)
    (e : LedgerEntry)
    → Chained p (directory d) n t.previous_hash t.previous_key_id es
    → Accepts p (directory d) m (tail_after t es).previous_hash (tail_after t es).previous_key_id e
    → m ≡ n + length es + 1
    → Chained p (directory d) n t.previous_hash t.previous_key_id (es ++ e ∷ [])
Chained-append {p = p} d n m t [] e c a h = (
  subst (λ (x : ℕ). Accepts p (directory d) x t.previous_hash t.previous_key_id e)
      (omega (arith, h)) a,
  tt,
)
Chained-append d n m t (e' ∷ es) e c a h =
    (c.0, Chained-append d (n + 1) m (tail_of e') es e c.1 a (omega (arith, h)))

length-append-pos : (es : List LedgerEntry) (e : LedgerEntry) → 0 < length (es ++ e ∷ [])
length-append-pos [] e = omega arith
length-append-pos (e' ∷ es) e = omega arith

pub verify_ledger-append :
    {p : Primitives} (d : TrustDirectory) (ls : List Line) (es : List LedgerEntry) (t : Tail)
    (n : ℕ) (e : LedgerEntry)
    → Reads p ls es
    → Chained p (directory d) 0 zero_hash "" es
    → tail_after no_tail es ≡ t
    → n ≡ length es + 1
    → Accepts p (directory d) n t.previous_hash t.previous_key_id e
    → parse_entry p (written e) ≡ ok e
    → verify_ledger p (some (ls ++ written e ∷ [])) (directory d)
      ≡ ok (passed p (directory d) (es ++ e ∷ []))
verify_ledger-append {p = p} d ls es t n e reads chained ends count accepts parsed =
    verify_ledger_complete p (directory d) (ls ++ written e ∷ []) (es ++ e ∷ [])
      (Reads-append e reads parsed)
      (Chained-append d 0 n no_tail es e chained
        (subst (λ (x : Tail). Accepts p (directory d) n x.previous_hash x.previous_key_id e)
          (sym ends) accepts)
        (omega (arith, count)))
      (length-append-pos es e)
