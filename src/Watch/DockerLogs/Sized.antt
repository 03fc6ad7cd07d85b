-- ===== src/Watch/DockerLogs/Sized.antt =====
-- The buffer for the lines of the log.
use metrika_agent.Prelude.{
  ℕ, zero, suc, ◌<◌, ◌≤◌, Bool, true, false, ◌||◌, List, length, ltb, arith, if-branches,
  Option-cases, inl, inr,
}
use metrika_agent.Prelude.Outcome.{Outcome, done, panic, out_of_fuel, ◌>>=◌}
use metrika_agent.Prelude.Error.{Result-cases}
use text.Mathlib.Text.{◌==◌ as str_eq}
use metrika_agent.Watch.{Watch, stop}
use metrika_agent.Watch.DockerLogs.{
  Read, bytes, at_end, broken, LogNode, DockerLogWatchConf, LogWatch, count_of, resize, read_data,
  log_round, log_rounds, max_line_bytes, emit_line, found, on_data, on_header, tries,
  new_event_stream, stop_log, after_stream, lost, start_logs,
}

-- `P` holds of what a call returns, if it returns.
pub data IfDone {A : Type 0} (P : A → Type 0) : Outcome A → Type 0 where
  returns : {a : A} → P a → IfDone P (done a)
  panics : IfDone P panic
  runs_out : IfDone P out_of_fuel

IfDone-bind :
    {A B : Type 0} {P : A → Type 0} {Q : B → Type 0} {m : Outcome A} {k : A → Outcome B}
    → IfDone P m
    → ((a : A) → P a → IfDone Q (k a))
    → IfDone Q (m >>= k)
IfDone-bind (returns p) next = next _ p
IfDone-bind panics next = panics
IfDone-bind runs_out next = runs_out

any_outcome : {A : Type 0} (m : Outcome A) → IfDone (λ _. Unit {0}) m
any_outcome (done a) = returns tt
any_outcome panic = panics
any_outcome out_of_fuel = runs_out

module _ {W T : Type 0} (env : LogNode W T) (conf : DockerLogWatchConf) where
  -- The slice is within its capacity, which is below the limit of a line.
  pub record Within (s : LogWatch W T) : Type 0 where
    pub inside : s.buf_len ≤ s.buf_cap
    pub small : s.buf_cap < max_line_bytes

  abbrev WithinAfter : Bool × LogWatch W T → Type 0
  WithinAfter r = Within r.1

  resize-Within : (count : ℕ) (s : LogWatch W T) → Within s → Within (resize env conf count s)
  unfolding resize
  resize-Within count s v =
      if-branches Within (ltb s.buf_cap count)
        (λ more.
          if-branches Within (ltb count max_line_bytes)
            (λ short. record { inside = omega arith; small = ground arith }) (λ long. v))
        (λ fits. record { inside = ground arith; small = v.small })

  found-Within : (s : LogWatch W T) → Within s → Within (found env conf s)
  found-Within s v =
      if-branches Within s.missing (λ _. record { inside = v.inside; small = v.small }) (λ _. v)

  emit_line-Within :
      (line : List ℕ) (s : LogWatch W T)
      → Within s
      → Within (emit_line env conf (env.parse_json line) s)
  emit_line-Within line s v = elim (Result-cases (env.parse_json line)) [
    | inr (e, bad) ↦ rw bad v
    | inl (body, good) ↦ rw good (record { inside = v.inside; small = v.small })
  ]

  tries-Within :
      (fuel : ℕ) (s : LogWatch W T) → Within s → IfDone WithinAfter (tries env conf fuel s)
  unfolding tries
  tries-Within zero s v = runs_out
  tries-Within (suc fuel) s v =
      if-branches (IfDone WithinAfter) (s.watch.stop_closed || env.stop_closed s.node)
        (λ _. returns v)
        (λ _. elim (Option-cases (env.repair (env.wait s.node)).0) [
          | inl none_left ↦ rw none_left (returns (record { inside = v.inside; small = v.small }))
          | inr (e, failed) ↦
              rw failed (tries-Within fuel _ (record { inside = v.inside; small = v.small }))
        ])

  new_event_stream-Within :
      (fuel : ℕ) (s : LogWatch W T)
      → Within s
      → IfDone WithinAfter (new_event_stream env conf fuel s)
  unfolding new_event_stream
  new_event_stream-Within fuel s v =
      if-branches (IfDone WithinAfter) (env.log_watch_enabled s.node) (λ _. tries-Within fuel s v)
        (λ _. returns v)

  stop_log-Within : (s : LogWatch W T) → Within s → IfDone Within (stop_log env conf s)
  unfolding stop_log
  stop_log-Within s v =
      if-branches (IfDone Within) (env.stop_closed s.node) (λ _. returns v)
        (λ _.
          IfDone-bind (any_outcome (stop s.watch))
            (λ w _. returns (record { inside = v.inside; small = v.small })))

  after_stream-Within :
      (r : Bool × LogWatch W T) → WithinAfter r → IfDone Within (after_stream env conf r)
  after_stream-Within (false, s) v = returns v
  after_stream-Within (true, s) v =
      IfDone-bind (stop_log-Within s v)
        (λ r u. returns (record { inside = u.inside; small = u.small }))

  lost-Within : (fuel : ℕ) (s : LogWatch W T) → Within s → IfDone Within (lost env conf fuel s)
  unfolding lost
  lost-Within fuel s v =
      IfDone-bind (new_event_stream-Within fuel _ (record { inside = v.inside; small = v.small }))
        after_stream-Within

  on_data-Within :
      (fuel : ℕ) (s : LogWatch W T) (got : Read × W)
      → Within s
      → IfDone Within (on_data env conf fuel s got)
  on_data-Within fuel s (broken, w) v = returns (record { inside = v.inside; small = v.small })
  on_data-Within fuel s (at_end, w) v =
      lost-Within fuel _ (record { inside = v.inside; small = v.small })
  on_data-Within fuel s (bytes line, w) v =
      let moved : Within (record s { node = w }) = record { inside = v.inside; small = v.small } in
      if-branches (IfDone Within) (ltb (length line) s.buf_len) (λ _. returns moved)
        (λ _. returns (emit_line-Within line _ (found-Within _ moved)))

  on_header-Within :
      (fuel : ℕ) (s : LogWatch W T) (got : Read × W)
      → Within s
      → IfDone Within (on_header env conf fuel s got)
  unfolding read_data
  on_header-Within fuel s (broken, w) v = returns (record { inside = v.inside; small = v.small })
  on_header-Within fuel s (at_end, w) v =
      lost-Within fuel _ (record { inside = v.inside; small = v.small })
  on_header-Within fuel s (bytes hdr, w) v =
      let moved : Within (record s { node = w }) = record { inside = v.inside; small = v.small } in
      if-branches (IfDone Within) (ltb (length hdr) 8) (λ _. returns moved)
        (λ _.
          on_data-Within fuel (resize env conf (count_of hdr) (record s { node = w }))
            (env.read (resize env conf (count_of hdr) (record s { node = w })).buf_len
              (resize env conf (count_of hdr) (record s { node = w })).node)
            (resize-Within (count_of hdr) _ moved))

  log_round-Within :
      (fuel : ℕ) (s : LogWatch W T) → Within s → IfDone Within (log_round env conf fuel s)
  unfolding log_round
  log_round-Within fuel s v =
      if-branches (IfDone Within) (s.watch.stop_closed || env.stop_closed s.node)
        (λ _. returns (record { inside = v.inside; small = v.small }))
        (λ _. on_header-Within fuel s (env.read 8 s.node) v)

  log_rounds-Within :
      (fuel n : ℕ) (s : LogWatch W T) → Within s → IfDone Within (log_rounds env conf fuel n s)
  unfolding log_rounds
  log_rounds-Within fuel zero s v = returns v
  log_rounds-Within fuel (suc n) s v = IfDone-bind (log_round-Within fuel s v) (λ r u.
      if-branches (IfDone Within) r.returned (λ _. returns u) (λ _. log_rounds-Within fuel n r u))

  -- However many rounds the goroutine of the docker log watch runs, whatever its stream holds and
  -- however often it is made anew: if the call returns, the slice of the buffer is within its
  -- capacity, and the capacity is below 1 MiB.
  pub start_logs-Within :
      (fuel n : ℕ) (watch : Watch) (w : W) (t : T)
      → IfDone Within (start_logs env conf fuel n watch w t)
  unfolding start_logs
  start_logs-Within fuel n watch w t =
      if-branches (IfDone Within) (str_eq conf.container_name "")
        (λ _. returns (record { inside = omega arith; small = omega arith }))
        (λ _.
          IfDone-bind
            (IfDone-bind
              (new_event_stream-Within fuel _
                (record { inside = omega arith; small = omega arith }))
              after_stream-Within)
            (λ r u.
              if-branches (IfDone Within) r.returned (λ _. returns u)
                (λ _. log_rounds-Within fuel n r u)))
