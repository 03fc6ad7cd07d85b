-- ===== src/Timesync/Ntp/Queried.antt =====
-- What a query of the NTP server does, and what a tick that gets an answer makes of the clock.
use Prim.Native.String.{String}
use metrika_agent.Prelude.{ℕ, zero, suc, ◌≡◌, refl, Option, none, some, inl, inr}
use metrika_agent.Prelude.Int.{ℤ, pos}
use metrika_agent.Prelude.Outcome.{Yields, yields}
use metrika_agent.Prelude.Error.{Error, Result, ok, err, Result-cases}
use metrika_agent.Timesync.Ntp.{TimeSync, query_loop, query_ntp, tries, store}

module _ {W : Type 0} (query : String → W → Result ℤ × W) (host : String) where
  -- `Asked n w r v`: of at most `n` queries from the world `w`, the first that succeeds, or else
  -- the last, answers `r` and leaves the world `v`.
  pub data Asked : ℕ → W → Result ℤ → W → Type 0 where
    answered :
        {n : ℕ} {w : W} {o : ℤ} → (query host w).0 ≡ ok o → Asked (suc n) w (ok o) (query host w).1
    gave_up : {w : W} {e : Error} → (query host w).0 ≡ err e → Asked 1 w (err e) (query host w).1
    again :
        {n : ℕ} {w v : W} {e : Error} {r : Result ℤ}
        → (query host w).0 ≡ err e
        → Asked (suc n) (query host w).1 r v
        → Asked (suc (suc n)) w r v

  pub record Ends (n : ℕ) (w : W) (end : Option (Result ℤ) × W) : Type 0 where
    pub answer : Result ℤ
    pub last : end.0 ≡ some answer
    pub asked : Asked n w answer end.1

  query_loop-Ends :
      (n : ℕ) (last : Option (Result ℤ)) (w : W)
      → Ends (suc n) w (query_loop query (suc n) host last w)
  unfolding query_loop
  query_loop-Ends zero last w = elim (Result-cases (query host w).0) [
    | inl (o, e) ↦ rw (e, query_loop) (record { answer = ok o; last = refl; asked = answered e })
    | inr (x, e) ↦ rw (e, query_loop) (record { answer = err x; last = refl; asked = gave_up e })
  ]
  query_loop-Ends (suc n) last w = elim (Result-cases (query host w).0) [
    | inl (o, e) ↦ rw (e, query_loop) (record { answer = ok o; last = refl; asked = answered e })
    | inr (x, e) ↦
        let rest = query_loop-Ends n (some (err x)) (query host w).1 in
        rw (e, query_loop)
          (record { answer = rest.answer; last = rest.last; asked = again e rest.asked })
  ]

-- What is returned for the answer `r`, and what becomes of the clock.
pub data Took (t : TimeSync) : Result ℤ → Option Error × TimeSync → Type 0 where
  offset : {o : ℤ} → Took t (ok o) (none, record t { delta = o })
  failed : {e : Error} → Took t (err e) (some e, t)

pub record Queried {W : Type 0} (query : String → W → Result ℤ × W) (t : TimeSync) (w : W)
    (end : Option Error × TimeSync × W) : Type 0 where
  pub answer : Result ℤ
  pub asked : Asked query t.host (tries t.retries) w answer end.2
  pub took : Took t answer (end.0, end.1)

store-Queried :
    {W : Type 0} (query : String → W → Result ℤ × W) (t : TimeSync) {w v : W} (r : Result ℤ)
    → Asked query t.host (tries t.retries) w r v
    → Yields (Queried query t w) (store query t r v)
store-Queried query t (ok o) a = yields (record { answer = ok o; asked = a; took = offset })
store-Queried query t (err e) a = yields (record { answer = err e; asked = a; took = failed })

-- With at least one try, `QueryNTP` never dereferences a nil response. It asks the server up to
-- `retries` times, until an answer comes; it stores the offset of the first answer, and if every
-- query fails it returns the last error and leaves the clock as it was.
pub query_ntp-Queried :
    {W : Type 0} (query : String → W → Result ℤ × W) (n : ℕ) (t : TimeSync) (w : W)
    → t.retries ≡ pos (suc n)
    → Yields (Queried query t w) (query_ntp query t w)
unfolding query_ntp
query_ntp-Queried query n t w h =
    let ends = query_loop-Ends query t.host n none w in
    let asked : Asked query t.host (tries t.retries) w ends.answer
        (query_loop query (tries t.retries) t.host none w).1 =
      rw h ends.asked in
    let last : (query_loop query (tries t.retries) t.host none w).0 ≡ some ends.answer =
      rw h ends.last in
    rw (last, query_ntp) (store-Queried query t ends.answer asked)
