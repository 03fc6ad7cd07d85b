-- ===== src/Watch/Journal/Heard.antt =====
-- What the watch of the journal tells of the log, and when it hears that it is to stop.
use Prim.Native.String.{String}
use text.Mathlib.Text.{◌==◌ as str_eq}
use metrika_agent.Prelude.{
  ℕ, zero, suc, ◌≡◌, refl, sym, ◌∙◌, Bool, true, false, not, ◌||◌, Option, none, some, List, [],
  ◌∷◌, arith, if-branches,
}
use metrika_agent.Prelude.Error.{Error, Result, ok, err}
use metrika_agent.Model.{Fields}
use metrika_agent.Watch.Journal.{
  JournalNode, JournaldLogWatchConf, JournalWatch, reset_journal, progress_journal, tell, found,
  emit_line, on_progress, with_journal, on_reset, journal_round, journal_rounds, start_journal,
  begins_with_brace,
}

-- The log is not found twice without being lost in between; the last event comes first.
abbrev pub Turns : List Bool → Type 0
Turns [] = Unit
Turns (false ∷ bs) = Turns bs
Turns (true ∷ []) = Unit
Turns (true ∷ true ∷ bs) = ⊥
Turns (true ∷ false ∷ bs) = Turns bs

-- Whether the log is missing after these events: at first it is.
abbrev pub missing_after : List Bool → Bool
missing_after [] = true
missing_after (b ∷ bs) = not b

Turns-found : (bs : List Bool) → missing_after bs ≡ true → Turns bs → Turns (true ∷ bs)
Turns-found [] m t = tt
Turns-found (true ∷ bs) m t = absurd (cc)
Turns-found (false ∷ bs) m t = t

module _ {W T : Type 0} (env : JournalNode W T) (conf : JournaldLogWatchConf) where
  pub record InTurn (s : JournalWatch W T) : Type 0 where
    pub agrees : s.log_missing ≡ missing_after s.told
    pub turns : Turns s.told

  at_node : (s : JournalWatch W T) (w : W) → InTurn s → InTurn (record s { node = w })
  at_node s w p = record { agrees = p.agrees; turns = p.turns }

  found-InTurn : (s : JournalWatch W T) → InTurn s → InTurn (found env conf s)
  found-InTurn s p =
      if-branches InTurn s.log_missing
        {x = record (tell env conf "agent.node.log.found" true s) { log_missing = false }}
        (λ missing. record {
          agrees = refl;
          turns = Turns-found s.told (sym p.agrees ∙ missing) p.turns;
        })
        (λ _. p)

  emit_line-InTurn :
      (r : Result Fields) (s : JournalWatch W T) → InTurn s → InTurn (emit_line env conf r s)
  emit_line-InTurn (err e) s p = p
  emit_line-InTurn (ok body) s p = record { agrees = p.agrees; turns = p.turns }

  on_progress-InTurn :
      (r : Result (Option String) × W) (s : JournalWatch W T)
      → InTurn s
      → InTurn (on_progress env conf r s)
  on_progress-InTurn (err e, w) s p = record { agrees = refl; turns = p.turns }
  on_progress-InTurn (ok none, w) s p = at_node s w p
  on_progress-InTurn (ok (some v), w) s p =
      let here = found-InTurn (record s { node = w }) (at_node s w p) in
      if-branches InTurn (str_eq v "") (λ _. at_node s w p)
        (λ _.
          if-branches InTurn (begins_with_brace v) (λ _. emit_line-InTurn (env.parse_json v) _ here)
            (λ _. here))

  with_journal-InTurn : (s : JournalWatch W T) → InTurn s → InTurn (with_journal env conf s)
  with_journal-InTurn s p =
      if-branches InTurn (s.watch.stop_closed || env.stop_closed s.node)
        (λ _. record { agrees = p.agrees; turns = p.turns })
        (λ _. on_progress-InTurn (progress_journal env conf s.node) s p)

  on_reset-InTurn :
      (r : Option Error × W) (s : JournalWatch W T) → InTurn s → InTurn (on_reset env conf r s)
  on_reset-InTurn (some e, w) s p = at_node s _ p
  on_reset-InTurn (none, w) s p =
      with_journal-InTurn (record s { journal = true; node = w })
        (record { agrees = p.agrees; turns = p.turns })

  journal_round-InTurn : (s : JournalWatch W T) → InTurn s → InTurn (journal_round env conf s)
  unfolding journal_round
  journal_round-InTurn s p =
      if-branches InTurn s.journal (λ _. with_journal-InTurn s p)
        (λ _. on_reset-InTurn (reset_journal env conf s.node) s p)

  journal_rounds-InTurn :
      (n : ℕ) (s : JournalWatch W T) → InTurn s → InTurn (journal_rounds env conf n s)
  unfolding journal_rounds
  journal_rounds-InTurn zero s p = p
  journal_rounds-InTurn (suc n) s p =
      let next = journal_round-InTurn s p in
      if-branches InTurn (journal_round env conf s).returned (λ _. next)
        (λ _. journal_rounds-InTurn n (journal_round env conf s) next)

  -- If the watch of the journal takes the log for missing just when no event has told that it is
  -- found, or the last told that it is missing, and never told twice in a row that it is found,
  -- then so it is after any number of rounds, whatever the journal gives.
  pub start_journal-InTurn :
      (n : ℕ) (s : JournalWatch W T) → InTurn s → InTurn (start_journal env conf n s)
  unfolding start_journal
  start_journal-InTurn n s p =
      journal_rounds-InTurn n _ (record { agrees = p.agrees; turns = p.turns })

  -- The journal cannot be made.
  abbrev pub NoJournal : Type 0
  NoJournal = (w : W) → (e : Error) × (v : W) × (reset_journal env conf w ≡ (some e, v))

  pub record Waits (s : JournalWatch W T) : Type 0 where
    pub lost : s.journal ≡ false
    pub goes_on : s.returned ≡ false

  on_reset-Waits :
      (r : Option Error × W) (s : JournalWatch W T) (e : Error) (v : W)
      → r ≡ (some e, v)
      → Waits s
      → Waits (on_reset env conf r s)
  on_reset-Waits (some e', w) s e v h p = record { lost = p.lost; goes_on = p.goes_on }
  on_reset-Waits (none, w) s e v h p = absurd (cc)

  journal_round-Waits :
      NoJournal → (s : JournalWatch W T) → Waits s → Waits (journal_round env conf s)
  unfolding journal_round
  journal_round-Waits no_journal s p =
      let (e, v, h) = no_journal s.node in
      if-branches Waits s.journal (λ there. absurd (ground arith))
        (λ _. on_reset-Waits (reset_journal env conf s.node) s e v h p)

  -- As long as the journal cannot be made, a watch that has lost it does not return and has no
  -- journal after any number of rounds, whether or not its stop channel is closed.
  pub journal_rounds-Waits :
      NoJournal → (n : ℕ) (s : JournalWatch W T) → Waits s → Waits (journal_rounds env conf n s)
  unfolding journal_rounds
  journal_rounds-Waits no_journal zero s p = p
  journal_rounds-Waits no_journal (suc n) s p =
      let next = journal_round-Waits no_journal s p in
      if-branches Waits (journal_round env conf s).returned (λ _. next)
        (λ _. journal_rounds-Waits no_journal n (journal_round env conf s) next)
