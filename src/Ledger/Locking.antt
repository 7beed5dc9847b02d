-- ===== src/Ledger/Locking.antt =====
-- When a process takes the lock of `_exclusive_lock`, and what it leaves behind.
use kratos_agent_guard.Prelude.{
  ℕ, ◌+◌, ◌*◌, ◌<◌, ◌≡◌, ◌⊎◌, inl, inr, refl, Bool, true, false, none, some, Option-cases, ltb,
  arith, eq_refl, Bool-cases,
}
use kratos_agent_guard.Failure.{ok}
use kratos_agent_guard.Primitives.{Stored, written}
use kratos_agent_guard.Ledger.Lock.{
  LockContext, LockFile, LockPayload, LockReading, read_payload, is_abandoned, recover_stale_lock,
  acquire_lock, release_lock, own_payload,
}

recover_cases :
    (x : Bool × LockFile)
    → ((l : LockFile) × (x ≡ (false, l)))
      ⊎ (x ≡ (true, none))
      ⊎ ((l : Stored LockPayload) × (x ≡ (true, some l)))
recover_cases (false, l) = inl (l, refl)
recover_cases (true, none) = inr (inl refl)
recover_cases (true, some l) = inr (inr (l, refl))

module _ (c : LockContext) where
  -- A lock file that a process may remove: it can be read, its holder is gone, and it is older than
  -- the limit.
  pub record Abandoned (stale_after : ℕ) (l : Stored LockPayload) : Type 0 where
    pub reading : LockReading
    pub is_read : read_payload c l ≡ some reading
    pub is_old : reading.payload.created_at + stale_after * 1_000_000 < c.now
    pub is_gone : c.pid_exists reading.payload.process_id ≡ false

  is_abandoned-parts :
      (stale_after : ℕ) (r : LockReading)
      → is_abandoned c stale_after r ≡ true
      → (r.payload.created_at + stale_after * 1_000_000 < c.now)
        × (c.pid_exists r.payload.process_id ≡ false)
  unfolding is_abandoned
  is_abandoned-parts stale_after r h = ground arith

  recover_stale_lock-true :
      (stale_after : ℕ) (l : Stored LockPayload) (again left : LockFile)
      → recover_stale_lock c stale_after (some l) again ≡ (true, left)
      → Abandoned stale_after l
  unfolding recover_stale_lock
  recover_stale_lock-true stale_after l again left h = elim (Option-cases (read_payload c l)) [
    | inl unread ↦ cc (rw (unread, recover_stale_lock) at h)
    | inr (r, is_read) ↦ elim (Bool-cases (is_abandoned c stale_after r)) [
      | inr kept ↦ cc (rw (is_read, kept, recover_stale_lock) at h)
      | inl abandoned ↦
          let (is_old, is_gone) = is_abandoned-parts stale_after r abandoned in
          record { reading = r; is_read = is_read; is_old = is_old; is_gone = is_gone }
    ]
  ]

  pub acquire_lock-taken :
      (stale_after : ℕ) (first again : LockFile) (own : Stored LockPayload) (left : LockFile)
      → acquire_lock c stale_after first again ≡ (ok own, left)
      → (left ≡ some (written (own_payload c)))
        × ((first ≡ none) ⊎ ((l : Stored LockPayload) × (first ≡ some l) × Abandoned stale_after l))
  unfolding acquire_lock
  acquire_lock-taken stale_after none again own left h = (ground arith, inl refl)
  acquire_lock-taken stale_after (some l) again own left h = elim (Bool-cases (ltb stale_after 1)) [
    | inl none_given ↦ cc (rw (none_given, acquire_lock) at h)
    | inr positive ↦
        let h1 = rw (positive, acquire_lock) at h in
        elim (recover_cases (recover_stale_lock c stale_after (some l) again)) [
          | inl (l', failed) ↦ cc (rw failed at h1)
          | inr (inl recovered) ↦ (
            ground (arith, rw recovered at h1),
            inr (l, refl, recover_stale_lock-true stale_after l again none recovered),
          )
          | inr (inr (l', recovered)) ↦ cc (rw recovered at h1)
        ]
  ]

  pub release_lock-own : release_lock c (some (written (own_payload c))) ≡ none
  unfolding release_lock own_payload
  release_lock-own = simp (eq_refl c.fresh_token)
