-- ===== src/Flow/Metadata/Searched.antt =====
-- The search in the log.
use text.Mathlib.Text.{◌==◌ as str_eq}
use metrika_agent.Prelude.{
  ℕ, zero, suc, ◌<◌, ◌≡◌, refl, sym, subst, inl, inr, ◌==◌, true, false, ◌&&◌, ◌||◌, none, some,
  List, [], ◌∷◌, length, ltb, arith, if◌then◌else◌, Bool-cases,
}
use metrika_agent.Prelude.Outcome.{Outcome, done, panic, Yields, yields, Yields-branch}
use metrika_agent.Prelude.Error.{Error, Result, ok, err}
use metrika_agent.Model.{Fields}
use metrika_agent.Flow.{Flow}
use metrika_agent.Flow.Metadata.{
  update_metadata, LogLines, Ended, found_all, slice_from, on_fields, on_json, on_text, on_line,
  update_from_logs,
}
use metrika_agent.Flow.Metadata.Known.{
  IsKnown, Learned, nothing_new, Learned-trans, IfOk, good, bad, update_metadata-Learned,
}

found_all_complete :
    (d : Flow)
    → found_all d ≡ none
    → (str_eq d.network "" ≡ false) × (str_eq d.node_role "" ≡ false)
found_all_complete d h = elim (Bool-cases (str_eq d.network "")) [
  | inl missing ↦ absurd (ground arith)
  | inr there ↦ elim (Bool-cases (str_eq d.node_role "")) [
    | inl missing ↦ absurd (ground arith)
    | inr also ↦ (there, also)
  ]
]

module _ {W : Type 0} (log : LogLines W) where
  -- Time runs out, or the log ends, after fewer lines than `n`, and no line ends with its header.
  pub data Runs (hdr_len : ℕ) : ℕ → W → Type 0 where
    over : {n : ℕ} {w : W} → log.time_left w ≡ false → Runs hdr_len (suc n) w
    ends :
        {n : ℕ} {w v : W} → (e : Error) → log.get_log_line w ≡ (err e, v) → Runs hdr_len (suc n) w
    line :
        {n : ℕ} {w v : W}
        → (got : List ℕ) → log.get_log_line w ≡ (ok got, v)
        → (length got == hdr_len) ≡ false
        → Runs hdr_len n v
        → Runs hdr_len (suc n) w

  pub record Searched (d : Flow) (r : Ended W) : Type 0 where
    pub learned : Learned d r.1
    pub complete : r.0 ≡ none → (str_eq r.1.network "" ≡ false) × (str_eq r.1.node_role "" ≡ false)

  abbrev Finds : Flow → Outcome (Ended W) → Type 0
  Finds d = Yields (Searched d)

  gave_up : (d : Flow) (e : Error) (w : W) → IsKnown d → Finds d (done (some e, d, w))
  gave_up d e w k = yields (record { learned = nothing_new d k; complete = λ h. absurd (cc) })

  on_fields-Finds :
      (r : Result Flow) (w : W) (d : Flow) (next : Flow → Outcome (Ended W))
      → IsKnown d
      → IfOk (Learned d) r
      → ((e : Flow) → Learned d e → Finds d (next e))
      → Finds d (on_fields log r w d next)
  on_fields-Finds (ok e) w d next k (good p) later = later e p
  on_fields-Finds (err e) w d next k bad later = gave_up d e w k

  on_json-Finds :
      (r : Result Fields) (w : W) (d : Flow) (next : Flow → Outcome (Ended W))
      → IsKnown d
      → ((e : Flow) → Learned d e → Finds d (next e))
      → Finds d (on_json log r w d next)
  on_json-Finds (err e) w d next k later = gave_up d e w k
  on_json-Finds (ok m) w d next k later =
      on_fields-Finds (update_metadata m d) w d next k (update_metadata-Learned m d k) later

  -- A slice that leaves something.
  slice_from_more :
      (n : ℕ) (bs : List ℕ)
      → n < length bs
      → (b : ℕ) × (more : List ℕ) × (slice_from n bs ≡ some (b ∷ more))
  slice_from_more zero [] h = absurd (omega arith)
  slice_from_more zero (b ∷ bs) h = (b, bs, refl)
  slice_from_more (suc n) [] h = absurd (omega arith)
  slice_from_more (suc n) (b ∷ bs) h = slice_from_more n bs (omega arith)

  sliced_away : (n : ℕ) (bs : List ℕ) → length bs ≡ n → slice_from n bs ≡ some []
  sliced_away zero [] h = refl
  sliced_away zero (b ∷ bs) h = absurd (omega arith)
  sliced_away (suc n) [] h = absurd (omega arith)
  sliced_away (suc n) (b ∷ bs) h = sliced_away n bs (omega arith)

  on_line-Finds :
      (got : List ℕ) (w : W) (hdr_len : ℕ) (d : Flow) (next skip : W → Flow → Outcome (Ended W))
      → (length got == hdr_len) ≡ false
      → IsKnown d
      → ((e : Flow) → Learned d e → Finds d (next w e))
      → Finds d (skip w d)
      → Finds d (on_line log (ok got, w) hdr_len d next skip)
  on_line-Finds got w hdr_len d next skip more k later skipped =
      Yields-branch (ltb 0 hdr_len && ltb (length got) hdr_len) (λ _. gave_up d _ w k)
        (λ long.
          let (b, bs, cut) = slice_from_more hdr_len got (ground arith) in
          subst (λ x. Finds d (on_text log x w d (next w) (skip w))) (sym cut)
            (Yields-branch (b == 123)
              (λ _. on_json-Finds (log.unmarshal (b ∷ bs)) w d (next w) k later) (λ _. skipped)))

  Finds-weaken : (d e : Flow) (m : Outcome (Ended W)) → Learned d e → Finds e m → Finds d m
  Finds-weaken d e m p (yields {a} q) =
      yields (record { learned = Learned-trans d e a.1 p q.learned; complete = q.complete })

  -- If time runs out or the log ends within the given number of lines, and no line is exactly as
  -- long as its header, then the search in the log ends in as many rounds, without a panic. It
  -- changes nothing but the role and the network, keeps those that were known, sets them only to a
  -- known role or network, and returns no error only if both are known at the end.
  pub update_from_logs-Searched :
      (n hdr_len : ℕ) (d : Flow) (w : W)
      → Runs hdr_len n w
      → IsKnown d
      → Yields (Searched d) (update_from_logs log n hdr_len d w)
  unfolding update_from_logs
  update_from_logs-Searched zero hdr_len d w runs k = elim runs [ ]
  update_from_logs-Searched (suc n) hdr_len d w (over out) k =
      Yields-branch (log.time_left w) (λ in_time. absurd (ground arith))
        (λ _. yields (record { learned = nothing_new d k; complete = found_all_complete d }))
  update_from_logs-Searched (suc n) hdr_len d w (ends e last) k =
      Yields-branch (log.time_left w) (λ _. rw last (gave_up d e _ k))
        (λ _. yields (record { learned = nothing_new d k; complete = found_all_complete d }))
  update_from_logs-Searched (suc n) hdr_len d w (line {v = v} got read more runs) k =
      Yields-branch (log.time_left w)
        (λ _. rw read (
          on_line-Finds got v hdr_len d
            (λ v e.
              if str_eq e.network "" || str_eq e.node_role ""
              then update_from_logs log n hdr_len e v
              else done (found_all e, e, v))
            (λ v e. update_from_logs log n hdr_len e v) more k
            (λ e p.
              Yields-branch (str_eq e.network "" || str_eq e.node_role "")
                (λ _. Finds-weaken d e _ p (update_from_logs-Searched n hdr_len e v runs p.known))
                (λ _. yields (record { learned = p; complete = found_all_complete e })))
            (update_from_logs-Searched n hdr_len d v runs k)))
        (λ _. yields (record { learned = nothing_new d k; complete = found_all_complete d }))

  -- While there is time left, a line of the log that is exactly as long as its header makes the
  -- search in the log panic; for the journal, which has no headers, that is an empty line.
  pub update_from_logs-panics :
      (n hdr_len : ℕ) (d : Flow) (w v : W) (got : List ℕ)
      → log.time_left w ≡ true
      → log.get_log_line w ≡ (ok got, v)
      → length got ≡ hdr_len
      → update_from_logs log (suc n) hdr_len d w ≡ panic
  unfolding update_from_logs
  update_from_logs-panics n hdr_len d w v got in_time read same =
      let whole : (ltb 0 hdr_len && ltb (length got) hdr_len) ≡ false = ground arith in
      rw (in_time, read, whole, sliced_away hdr_len got same) refl
