-- ===== src/Watch/DockerLogs/Framed.antt =====
-- The frames of docker's stream, and what the watch makes of the lines in them.
use Prim.Native.String.{String}
use metrika_agent.Prelude.{
  if-branches, sym, subst, ℕ, ◌/◌, ◌%◌, ◌^◌, ◌<◌, ◌≡◌, refl, ap, ◌∙◌, true, false, ◌||◌, Option,
  none, some, List, [], ◌∷◌, length, ltb, arith, if◌then◌else◌, inl, inr,
}
use metrika_agent.Prelude.Int.{ℤ}
use metrika_agent.Prelude.Outcome.{done, Yields, yields, Yields-bind, Yields-weaken, Yields-branch}
use metrika_agent.Prelude.Error.{Result, ok, err, Result-cases}
use metrika_agent.Model.{Fields, Event}
use metrika_agent.Emit.{event_message}
use metrika_agent.Watch.{Watch, emit, emit_node_log_events}
use metrika_agent.Watch.DockerLogs.{
  bytes, LogNode, DockerLogWatchConf, LogWatch, count_of, resize, read_data, log_round, log_rounds,
  max_line_bytes, emit_line, on_data, on_header, tell,
}

-- The header of a frame: the stream, three zeros, and the length of the data, the most significant
-- byte first.
abbrev pub header : ℕ → ℕ → List ℕ
header stream n =
    stream ∷ 0 ∷ 0 ∷ 0 ∷ n / 16_777_216 % 256 ∷ n / 65_536 % 256 ∷ n / 256 % 256 ∷ n % 256 ∷ []

pub count_of-header : (stream n : ℕ) → n < 2 ^ 32 → count_of (header stream n) ≡ n
unfolding count_of
count_of-header stream n h = omega arith

module _ {W T : Type 0} (env : LogNode W T) where
  -- The stream has the frames of these lines, each read as a whole, and nobody stops the watch.
  pub data Feeds : List (List ℕ) → W → W → Type 0 where
    no_more : {w : W} → Feeds [] w w
    frame :
        {line : List ℕ} {lines : List (List ℕ)} {u v w x : W}
        → env.stop_closed u ≡ false
        → (stream : ℕ) → env.read 8 u ≡ (bytes (header stream (length line)), v)
        → env.read (length line) v ≡ (bytes line, w)
        → Feeds lines w x
        → Feeds (line ∷ lines) u x

  -- All lines are shorter than the limit.
  abbrev pub Short : List (List ℕ) → Type 0
  Short [] = Unit
  Short (line ∷ lines) = (length line < max_line_bytes) × Short lines

  module _ (conf : DockerLogWatchConf) where
    -- The events of a line, told at once.
    abbrev pub hear : List ℕ → Watch → T → Watch × T
    hear line w t = elim (env.parse_json line) [
      | err e ↦ (w, t)
      | ok body ↦ emit_node_log_events env.clock conf.events body w t
    ]

    abbrev pub hear_all : List (List ℕ) → Watch → T → Watch × T
    hear_all [] w t = (w, t)
    hear_all (line ∷ lines) w t = let (v, u) = hear line w t in hear_all lines v u

    events_keep_stop :
        (evs : List (String × (Fields → ℤ → Result (Option Event)))) (body : Fields) (w : Watch)
        (t : T)
        → (emit_node_log_events env.clock evs body w t).0.stop_closed ≡ w.stop_closed
    unfolding emit_node_log_events emit
    events_keep_stop [] body w t = refl
    events_keep_stop (e ∷ evs) body w t =
        let (now, t') = env.clock t in
        elim (Result-cases (e.1 body (env.clock t).0)) [
          | inr (reason, failed) ↦
              rw (emit_node_log_events, failed) (events_keep_stop evs body w (env.clock t).1)
          | inl (none, nothing) ↦
              rw (emit_node_log_events, nothing) (events_keep_stop evs body w (env.clock t).1)
          | inl (some ev, made) ↦
              rw (emit_node_log_events, made)
                (events_keep_stop evs body (emit (event_message ev) w) (env.clock t).1)
        ]

    -- The watch runs, and the log is not missing.
    pub record Reads (s : LogWatch W T) : Type 0 where
      pub runs : s.watch.stop_closed ≡ false
      pub there : s.missing ≡ false
      pub goes_on : s.returned ≡ false

    pub record Heard (line : List ℕ) (w : W) (s r : LogWatch W T) : Type 0 where
      pub reads : Reads r
      pub told : (r.watch, r.time) ≡ hear line s.watch s.time
      pub at_node : r.node ≡ w

    hear-open : (line : List ℕ) (w : Watch) (t : T) → (hear line w t).0.stop_closed ≡ w.stop_closed
    hear-open line w t = elim (Result-cases (env.parse_json line)) [
      | inr (e, bad) ↦ rw (hear, bad) refl
      | inl (body, good) ↦ rw (hear, good) (events_keep_stop conf.events body w t)
    ]

    emit_line-hear :
        (line : List ℕ) (s : LogWatch W T)
        → let r = emit_line env conf (env.parse_json line) s in
          ((r.watch, r.time) ≡ hear line s.watch s.time)
          × (r.missing ≡ s.missing)
          × (r.returned ≡ s.returned)
          × (r.node ≡ s.node)
    emit_line-hear line s = elim (Result-cases (env.parse_json line)) [
      | inr (e, bad) ↦ rw (hear, bad) (refl, refl, refl, refl)
      | inl (body, good) ↦ rw (hear, good) (refl, refl, refl, refl)
    ]

    read_data-Heard :
        (fuel : ℕ) {line : List ℕ} {w : W} (s : LogWatch W T)
        → Reads s
        → s.buf_len ≡ length line
        → env.read (length line) s.node ≡ (bytes line, w)
        → Yields (Heard line w s) (read_data env conf fuel s)
    unfolding read_data
    read_data-Heard fuel {line} {w} s reads size data_read =
        let here = record s { node = w } in
        let (same, still_there, still_runs, at_w) = emit_line-hear line here in
        let as_found =
          ap
            (λ b.
              if b
              then record (tell env conf "agent.node.log.found" here) { missing = false }
              else here)
            reads.there in
        subst (λ x. Yields (Heard line w s) (on_data env conf fuel s x))
          (sym (ap (λ n. env.read n s.node) size ∙ data_read))
          (Yields-branch (ltb (length line) s.buf_len) (λ cut. absurd (ground arith))
            (λ _. yields (
              subst (λ x. Heard line w s (emit_line env conf (env.parse_json line) x))
                (sym as_found)
                (record {
                  reads = record {
                    runs =
                        ap (λ p. p.0.stop_closed) same ∙ hear-open line s.watch s.time ∙ reads.runs;
                    there = still_there ∙ reads.there;
                    goes_on = still_runs ∙ reads.goes_on;
                  };
                  told = same;
                  at_node = at_w;
                }))))

    record Resized (count : ℕ) (s r : LogWatch W T) : Type 0 where
      size : r.buf_len ≡ count
      same_watch : r.watch ≡ s.watch
      same_time : r.time ≡ s.time
      same_node : r.node ≡ s.node
      same_missing : r.missing ≡ s.missing
      same_returned : r.returned ≡ s.returned

    resize-Resized :
        (count : ℕ) (s : LogWatch W T)
        → count < max_line_bytes
        → Resized count s (resize env conf count s)
    unfolding resize
    resize-Resized count s h =
        if-branches (Resized count s) (ltb s.buf_cap count)
          (λ more.
            if-branches (Resized count s) (ltb count max_line_bytes)
              (λ _. record {
                size = refl;
                same_watch = refl;
                same_time = refl;
                same_node = refl;
                same_missing = refl;
                same_returned = refl;
              })
              (λ long. absurd (ground arith)))
          (λ _. record {
            size = refl;
            same_watch = refl;
            same_time = refl;
            same_node = refl;
            same_missing = refl;
            same_returned = refl;
          })

    -- One round reads one frame.
    log_round-Heard :
        (fuel : ℕ) {line : List ℕ} {v w : W} (s : LogWatch W T)
        → Reads s
        → env.stop_closed s.node ≡ false
        → (stream : ℕ) → env.read 8 s.node ≡ (bytes (header stream (length line)), v)
        → env.read (length line) v ≡ (bytes line, w)
        → length line < max_line_bytes
        → Yields (Heard line w s) (log_round env conf fuel s)
    unfolding log_round
    log_round-Heard fuel {line} {v} {w} s reads nobody stream head_read data_read short =
        let at_v = record s { node = v } in
        let z = resize-Resized (length line) at_v short in
        let big = resize env conf (length line) at_v in
        let ready : Reads big = record {
          runs = ap (λ x. x.stop_closed) z.same_watch ∙ reads.runs;
          there = z.same_missing ∙ reads.there;
          goes_on = z.same_returned ∙ reads.goes_on;
        } in
        let on = sym (ap (λ b. b || env.stop_closed s.node) reads.runs ∙ nobody) in
        subst
          (λ b. Yields (Heard line w s) (
            if b
            then done (record s { returned = true; node = env.close s.node })
            else on_header env conf fuel s (env.read 8 s.node)))
          on
          (subst (λ x. Yields (Heard line w s) (on_header env conf fuel s x)) (sym head_read)
            (rw (count_of-header stream (length line) (omega arith)) (
              Yields-weaken
                (read_data-Heard fuel big ready z.size
                  (ap (env.read (length line)) z.same_node ∙ data_read))
                (λ r h. record {
                  reads = h.reads;
                  told =
                      h.told
                      ∙ ap (λ x. hear line x big.time) z.same_watch
                      ∙ ap (hear line s.watch) z.same_time;
                  at_node = h.at_node;
                }))))

    pub record HeardAll (lines : List (List ℕ)) (w : W) (s r : LogWatch W T) : Type 0 where
      pub reads : Reads r
      pub told : (r.watch, r.time) ≡ hear_all lines s.watch s.time
      pub at_node : r.node ≡ w

    rounds_at :
        (fuel : ℕ) {lines : List (List ℕ)} {u w : W} (s : LogWatch W T)
        → Reads s
        → Feeds lines u w
        → s.node ≡ u
        → Short lines
        → Yields (HeardAll lines w s) (log_rounds env conf fuel (length lines) s)
    unfolding log_rounds
    rounds_at fuel s reads no_more at_u short =
        yields (record { reads = reads; told = refl; at_node = at_u })
    rounds_at fuel {w = w} s reads (frame {line} {lines} nobody stream head_read data_read rest)
          at_u short =
        Yields-bind
          (log_round-Heard fuel s reads (ap env.stop_closed at_u ∙ nobody) stream
            (ap (env.read 8) at_u ∙ head_read) data_read short.0)
          (λ r h.
            subst
              (λ b.
                Yields (HeardAll (line ∷ lines) w s)
                  (if b then done r else log_rounds env conf fuel (length lines) r))
              (sym h.reads.goes_on)
              (Yields-weaken (rounds_at fuel r h.reads rest h.at_node short.1) (λ q g. record {
                reads = g.reads;
                told = g.told ∙ ap (λ p. hear_all lines p.0 p.1) h.told;
                at_node = g.at_node;
              })))

    -- If the stream has frames, each a header that encodes the length of a line and the line
    -- itself, every read is whole, every line is shorter than 1 MiB and nobody stops a running
    -- watch whose log is not missing, then as many rounds as there are lines end without a panic:
    -- the watch has told the events of the lines, in order, and nothing else, the stream is at the
    -- end of the last frame, and the watch is still running.
    pub log_rounds-HeardAll :
        (fuel : ℕ) (lines : List (List ℕ)) {w : W} (s : LogWatch W T)
        → Reads s
        → Feeds lines s.node w
        → Short lines
        → Yields (HeardAll lines w s) (log_rounds env conf fuel (length lines) s)
    log_rounds-HeardAll fuel lines s reads f short = rounds_at fuel s reads f refl short
