-- ===== src/Timesync/Ntp/Tracked.antt =====
-- What the loop over the platform's timestamps does for one of them.
use Prim.Native.String.{String}
use metrika_agent.Prelude.{ℕ, suc, ◌≡◌, true, false, Option, inl, inr, Bool-cases}
use metrika_agent.Prelude.Int.{ℤ, pos, ltb_ℤ}
use metrika_agent.Prelude.Outcome.{Yields, yields, Yields-bind}
use metrika_agent.Prelude.Error.{Error, Result, ok, err}
use metrika_agent.Timesync.Platform.{PlatformSync, register_and_check, register, healthy, clear}
use metrika_agent.Timesync.Ntp.{TimeSync, now, tries, track, cleared, sync_now, query_ntp}
use metrika_agent.Timesync.Ntp.Queried.{Asked, Took, offset, failed, query_ntp-Queried}

sync_now_lem :
    {W : Type 0} (query : String → W → Result ℤ × W) (t : TimeSync) (w : W)
    → t.ticking ≡ true
    → ltb_ℤ (pos 0) t.interval ≡ true
    → sync_now query t w ≡ query_ntp query t w
unfolding sync_now
sync_now_lem query t w h k = simp (h, k)

module _ {W : Type 0} (query : String → W → Result ℤ × W) (t : TimeSync) (w : W) where
  -- `p` is the platform's record with the new timestamp in it.
  pub data Tracked (p : PlatformSync) : TimeSync × W → Type 0 where
    in_sync : healthy p ≡ true → Tracked p (record t { platform = p }, w)
    resynced :
        {o : ℤ} {v : W}
        → healthy p ≡ false
        → Asked query t.host (tries t.retries) w (ok o) v
        → Tracked p (record t { platform = clear p; delta = o }, v)
    not_resynced :
        {e : Error} {v : W}
        → healthy p ≡ false
        → Asked query t.host (tries t.retries) w (err e) v
        → Tracked p (record t { platform = p }, v)

  after_sync :
      (p : PlatformSync)
      → healthy p ≡ false
      → (answer : Result ℤ) (oe : Option Error) (s : TimeSync) (v : W)
      → Asked query t.host (tries t.retries) w answer v
      → Took (record t { platform = p }) answer (oe, s)
      → Yields (Tracked p) (cleared query oe s v)
  after_sync p h (ok o) _ _ v a offset = yields (resynced h a)
  after_sync p h (err e) _ _ v a failed = yields (not_resynced h a)

  -- For a clock that has been started, with a positive interval and at least one try per query: a
  -- timestamp with which the time is in sync is only stored. Otherwise the server is asked for the
  -- offset; if it answers, the offset is stored and the platform's timestamps start anew; if not,
  -- the timestamp is stored and the error is dropped. In no case is the decision to use the offset
  -- made again.
  pub track-Tracked :
      (n : ℕ) (clock timestamp : ℤ)
      → t.ticking ≡ true
      → ltb_ℤ (pos 0) t.interval ≡ true
      → t.retries ≡ pos (suc n)
      → Yields
          (Tracked (register (now clock t) timestamp t.platform))
          (track query clock timestamp t w)
  unfolding track register_and_check
  track-Tracked n clock timestamp ticking timed h =
      let p = register (now clock t) timestamp t.platform in
      elim (Bool-cases (healthy p)) [
        | inl good ↦ rw good (yields (in_sync good))
        | inr bad ↦
            rw (bad, sync_now_lem query (record t { platform = p }) w ticking timed)
              (Yields-bind (query_ntp-Queried query n (record t { platform = p }) w h)
                (λ a q. after_sync p bad q.answer a.0 a.1 a.2 q.asked q.took))
      ]
