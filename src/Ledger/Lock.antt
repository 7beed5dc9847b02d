-- ===== src/Ledger/Lock.antt =====
-- `_recover_stale_lock` and `_exclusive_lock` of src/kratos_guard/core/standalone.py. A process
-- acts alone on the lock file, but for the second read of a stale lock.
use Prim.Native.String.{count}
use kratos_agent_guard.Prelude.{
  ℕ, ◌+◌, ◌*◌, String, Bool, true, false, not, ◌&&◌, Option, none, some, ltb, leb, eqb, ◌==◌,
  if◌then◌else◌,
}
use kratos_agent_guard.Failure.{Kind, Result, ok, fail}
use kratos_agent_guard.Primitives.{Stored, written, foreign}

-- The JSON object in a lock file; times are in microseconds.
pub record LockPayload : Type 0 where
  pub created_at : ℕ
  pub process_id : ℕ
  pub token : String

-- What a lock file says to `_recover_stale_lock`: the payload, and whether its time has a zone.
-- A process number below 1 is read as 0.
pub record LockReading : Type 0 where
  pub payload : LockPayload
  pub is_aware : Bool

abbrev pub LockFile : Type 0
LockFile = Option (Stored LockPayload)

-- The clock, `psutil.pid_exists`, and the readers of texts that the Guard did not write
-- (`none` where one of them raises).
pub record LockContext : Type 0 where
  pub now : ℕ
  pub pid_exists : ℕ → Bool
  pub read_lock : String → Option LockReading
  pub is_base_sixteen : String → Bool
  pub own_process : ℕ
  pub fresh_token : String

abbrev pub same_lock : LockPayload → LockPayload → Bool
same_lock a b = eqb a.created_at b.created_at && eqb a.process_id b.process_id && a.token == b.token

-- `path.read_bytes() == observed`
abbrev pub same_bytes : Stored LockPayload → Stored LockPayload → Bool
same_bytes (written a) (written b) = same_lock a b
same_bytes (written a) (foreign s) = false
same_bytes (foreign s) (written b) = false
same_bytes (foreign s) (foreign t) = s == t

module _ (c : LockContext) where
  abbrev pub read_payload : Stored LockPayload → Option LockReading
  read_payload (written l) = some (record { payload = l; is_aware = true })
  read_payload (foreign s) = c.read_lock s

  -- The tests that must pass before a lock is taken for abandoned.
  unfoldable pub is_abandoned : ℕ → LockReading → Bool
  is_abandoned stale_after r =
      c.is_base_sixteen r.payload.token
      && r.is_aware
      && leb 1 r.payload.process_id
      && eqb (count r.payload.token) 64
      && ltb (r.payload.created_at + stale_after * 1_000_000) c.now
      && not (c.pid_exists r.payload.process_id)

  -- The second read: the file may be gone, or another one.
  abbrev remove_if_same : Stored LockPayload → LockFile → Bool × LockFile
  remove_if_same observed none = (true, none)
  remove_if_same observed (some again) =
      if same_bytes again observed then (true, none) else (false, some again)

  abbrev decide_stale : ℕ → Stored LockPayload → LockFile → Option LockReading → Bool × LockFile
  decide_stale stale_after observed again none = (false, again)
  decide_stale stale_after observed again (some r) =
      if is_abandoned stale_after r then remove_if_same observed again else (false, again)

  -- `_recover_stale_lock(path, stale_after_seconds=...)`: `again` is the file at the second read.
  -- The answer comes with the file that is left.
  unfoldable pub recover_stale_lock : ℕ → LockFile → LockFile → Bool × LockFile
  unfolding is_abandoned
  recover_stale_lock stale_after none again = (false, again)
  recover_stale_lock stale_after (some observed) again =
      decide_stale stale_after observed again (read_payload observed)

  unfoldable pub own_payload : LockPayload
  own_payload = record { created_at = c.now; process_id = c.own_process; token = c.fresh_token }

  -- The second attempt of the loop takes the lock if the path is free.
  abbrev second_attempt : Bool × LockFile → Result (Stored LockPayload) × LockFile
  second_attempt (true, none) = (ok (written own_payload), some (written own_payload))
  second_attempt (true, some l) = (fail Kind.runtime "LOCK_ALREADY_HELD", some l)
  second_attempt (false, left) = (fail Kind.runtime "LOCK_ALREADY_HELD", left)

  -- The part of `_exclusive_lock` before the `yield`.
  unfoldable pub acquire_lock : ℕ → LockFile → LockFile → Result (Stored LockPayload) × LockFile
  unfolding recover_stale_lock own_payload
  acquire_lock stale_after first again =
      if ltb stale_after 1
      then (fail Kind.value "stale_after_seconds must be positive", first)
      else elim first [
        | none ↦ (ok (written own_payload), some (written own_payload))
        | some l ↦ second_attempt (recover_stale_lock stale_after (some l) again)
      ]

  -- The `finally` part: the file is removed if it still holds this process's token.
  unfoldable pub release_lock : LockFile → LockFile
  release_lock none = none
  release_lock (some l) = elim (read_payload l) [
    | none ↦ some l
    | some r ↦ if r.payload.token == c.fresh_token then none else some l
  ]
