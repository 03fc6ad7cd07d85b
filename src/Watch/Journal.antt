-- ===== src/Watch/Journal.antt =====
-- internal/pkg/watch/journal_logs.go: the watch of the journal of the node's systemd unit. The
-- journal, the chain and the JSON parser are the record `JournalNode`, over a state `W`; `T` is the
-- state of the clock. The goroutine of `StartUnsafe` is taken round by round. `PendingStart` is that
-- of the docker log, line by line.
pub mod Heard
mod Tests
use Prim.Native.Char.{code}
use Prim.Native.String.{String}
use Prim.Native.String.{◌++◌ as ◌<>◌}
use text.Mathlib.Text.{◌==◌ as str_eq}
use metrika_agent.Prelude.{
  ℕ, zero, suc, ◌==◌, Bool, true, false, ◌||◌, Option, none, some, List, [], ◌∷◌, if◌then◌else◌,
}
use metrika_agent.Prelude.Int.{ℤ, pos}
use metrika_agent.Prelude.Error.{Error, Result, ok, err, failure}
use metrika_agent.Model.{Fields, Event}
use metrika_agent.Watch.{Watch, Chain, start_unsafe, emit_agent_node_event, emit_node_log_events}
use metrika_agent.Watch.Container.{or_default}

-- An entry is its fields, or none if it or they are nil. `open` is `sdjournal.NewJournal`.
pub record JournalNode (W T : Type 0) : Type 0 where
  pub open_journal : W → Option Error × W
  pub add_match : String → W → Option Error × W
  pub add_disjunction : W → Option Error × W
  pub seek_tail : W → Option Error × W
  pub next : W → Result ℕ × W
  pub get_entry : W → Result (Option (List (String × String))) × W
  pub wait : W → W
  pub close : W → W
  pub stop_closed : W → Bool
  pub chain : W → Chain
  pub clock : T → ℤ × T
  pub new_struct : Fields → Result Fields
  pub parse_json : String → Result Fields

-- `has_journal`: a journal is given with the configuration.
pub record JournaldLogWatchConf : Type 0 where
  pub unit_name : String
  pub has_journal : Bool
  pub events : List (String × (Fields → ℤ → Result (Option Event)))
  pub pending_start_interval : ℤ

-- `journal`: it is not nil. `told` is the history of the events about the log, the last first.
pub record JournalWatch (W T : Type 0) : Type 0 where
  pub watch : Watch
  pub journal : Bool
  pub log_missing : Bool
  pub told : List Bool
  pub returned : Bool
  pub node : W
  pub time : T

abbrev pub lookup : String → List (String × String) → Option String
lookup key [] = none
lookup key (entry ∷ entries) = if str_eq entry.0 key then some entry.1 else lookup key entries

abbrev pub begins_with_brace : String → Bool
begins_with_brace String.[] = false
begins_with_brace (String.◌∷◌ c s) = code c == 123

module _ {W T : Type 0} (env : JournalNode W T) (conf : JournaldLogWatchConf) where
  -- A call, and the next one if it returned no error.
  abbrev pub and_then : (Option Error × W) → (W → Option Error × W) → Option Error × W
  and_then (none, w) next = next w
  and_then (some e, w) next = (some e, w)

  -- `resetJournal`, by its error; without one the journal is set.
  unfoldable pub reset_journal : W → Option Error × W
  reset_journal w =
      let opened = if conf.has_journal then (none, w) else env.open_journal w in
      and_then opened (λ w1. and_then (env.add_match ("_SYSTEMD_UNIT=" <> conf.unit_name) w1) (λ w2.
        and_then (env.add_disjunction w2) (λ w3.
          and_then (env.add_match ("_SYSTEMD_USER_UNIT=" <> conf.unit_name) w3) env.seek_tail)))

  abbrev pub on_entry : Result (Option (List (String × String))) → Result (Option String)
  on_entry (err e) = err e
  on_entry (ok none) = err (failure "got unexpected entry from journal (null or null fields)")
  on_entry (ok (some fields)) = elim (lookup "MESSAGE" fields) [
    | none ↦ err (failure "journal entry without SD_JOURNAL_FIELD_MESSAGE field")
    | some v ↦ ok (some v)
  ]

  abbrev pub on_next : Result ℕ × W → Result (Option String) × W
  on_next (err e, w) = (err e, w)
  on_next (ok zero, w) = (ok none, env.wait w)
  on_next (ok (suc n), w) = let (entry, v) = env.get_entry w in (on_entry entry, v)

  unfoldable pub progress_journal : W → Result (Option String) × W
  progress_journal w = on_next (env.next w)

  abbrev pub tell : String → Bool → JournalWatch W T → JournalWatch W T
  tell name found s =
      let (now, t) = env.clock s.time in
      record s {
        watch = emit_agent_node_event env.new_struct (env.chain s.node) now name s.watch;
        told = found ∷ s.told;
        time = t;
      }

  abbrev pub found : JournalWatch W T → JournalWatch W T
  found s =
      if s.log_missing
      then record (tell "agent.node.log.found" true s) { log_missing = false }
      else s

  abbrev pub emit_line : Result Fields → JournalWatch W T → JournalWatch W T
  emit_line (err e) s = s
  emit_line (ok body) s =
      let (w, t) = emit_node_log_events env.clock conf.events body s.watch s.time in
      record s { watch = w; time = t }

  abbrev pub on_progress : Result (Option String) × W → JournalWatch W T → JournalWatch W T
  on_progress (err e, w) s =
      record (tell "agent.node.log.missing" false (record s { log_missing = true; node = w })) {
        journal = false;
        node = env.wait w;
      }
  on_progress (ok none, w) s = record s { node = w }
  on_progress (ok (some v), w) s =
      let here = found (record s { node = w }) in
      let told = if begins_with_brace v then emit_line (env.parse_json v) here else here in
      if str_eq v "" then record s { node = w } else told

  -- The round, once there is a journal.
  abbrev pub with_journal : JournalWatch W T → JournalWatch W T
  with_journal s =
      if s.watch.stop_closed || env.stop_closed s.node
      then record s { returned = true; node = env.close s.node }
      else on_progress (progress_journal s.node) s

  -- While the journal cannot be made, the stop channel is not looked at.
  abbrev pub on_reset : Option Error × W → JournalWatch W T → JournalWatch W T
  on_reset (some e, w) s = record s { node = env.wait w }
  on_reset (none, w) s = with_journal (record s { journal = true; node = w })

  unfoldable pub journal_round : JournalWatch W T → JournalWatch W T
  journal_round s = if s.journal then with_journal s else on_reset (reset_journal s.node) s

  unfoldable pub journal_rounds : ℕ → JournalWatch W T → JournalWatch W T
  journal_rounds zero s = s
  journal_rounds (suc n) s = let r = journal_round s in if r.returned then r else journal_rounds n r

  -- The constructor, for a journal that is then set, and `StartUnsafe` with its rounds.
  abbrev pub made : Option Error × W → T → Result (JournalWatch W T)
  made (some e, w) t = err e
  made (none, w) t = ok (record {
    watch = record {
      running = false;
      stop_closed = false;
      once = false;
      listeners = [];
      drops = 0;
    };
    journal = true;
    log_missing = true;
    told = [];
    returned = false;
    node = w;
    time = t;
  })

  unfoldable pub new_journald_log_watch : W → T → Result (JournalWatch W T)
  new_journald_log_watch w t =
      if str_eq conf.unit_name ""
      then err (failure "missing unit name")
      else made (reset_journal w) t

  unfoldable pub start_journal : ℕ → JournalWatch W T → JournalWatch W T
  start_journal n s = journal_rounds n (record s { watch = start_unsafe s.watch })
