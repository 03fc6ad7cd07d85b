-- ===== src/Buf/Api.antt =====
-- internal/pkg/buf/buffer.go: the `Buffer` interface, and what the controller relies on.
use metrika_agent.Prelude.{ℕ, ◌≡◌, Option, none, List, ◌++◌, Perm, length}
use metrika_agent.Prelude.Outcome.{Outcome, Yields}
use metrika_agent.Prelude.Error.{Error, Result, ok}
use metrika_agent.Buf.Queue.{Item}
use metrika_agent.Buf.Multi.{min}

pub record Buffer : Type 1 where
  pub State : Type 0
  pub insert : State → List Item → Outcome (Option Error × State)
  pub get : State → ℕ → Outcome (Result (List Item) × State)
  pub len : State → ℕ

-- What `get` did: it returned a batch of the size asked for, or of all that is there.
pub record Got (State : Type 0) (Holds : State → List Item → Type 0) (n : ℕ) (xs : List Item)
    (t : Result (List Item) × State) : Type 0 where
  pub batch : List Item
  pub rest : List Item
  pub returned : t.0 ≡ ok batch
  pub same : Perm (batch ++ rest) xs
  pub size : length batch ≡ min n (length xs)
  pub left : Holds t.1 rest

-- A buffer that loses nothing and reports no error. `Holds s xs`: the items in `s` are those of
-- `xs`, in whatever order.
pub record Reliable (B : Buffer) : Type 1 where
  pub Holds : B.State → List Item → Type 0
  pub len_law : (s : B.State) (xs : List Item) → Holds s xs → B.len s ≡ length xs
  pub insert_law :
      (s : B.State) (xs new : List Item)
      → Holds s xs
      → Yields (λ t. (t.0 ≡ none) × Holds t.1 (new ++ xs)) (B.insert s new)
  pub get_law :
      (s : B.State) (xs : List Item) (n : ℕ)
      → Holds s xs
      → Yields (Got B.State Holds n xs) (B.get s n)
