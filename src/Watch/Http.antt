-- ===== src/Watch/Http.antt =====
-- internal/pkg/watch/http.go: the watch that gets an HTTP endpoint. The HTTP client is the record
-- `HttpNode`, over a state `W`; contexts are left out. The body is emitted to channels of texts:
-- those of the base, whose `Watch` has here no others. The goroutine of `StartUnsafe` is taken case
-- by case of its `select`. An update's value is a list of endpoints; any other is an empty one.
pub mod Followed
mod Tests
use Prim.Native.String.{String}
use text.Mathlib.Text.{◌==◌ as str_eq}
use metrika_agent.Prelude.{
  ℕ, ◌+◌, leb, ltb, ◌==◌, Bool, true, false, Option, none, some, List, [], ◌∷◌, length, get_elem?,
  if◌then◌else◌,
}
use metrika_agent.Prelude.Outcome.{Outcome, done, panic, ◌>>=◌, or_panic}
use metrika_agent.Prelude.Error.{Error, Result, ok, err}
use metrika_agent.Emit.{Chan}
use metrika_agent.Flow.{PefEndpoint, ConfigUpdate}
use metrika_agent.Watch.{Watch, new_watch, start_unsafe, stop, emit_all}

-- `new_request`: of the URL; `send`: `client.Do` with the headers, by the status code; `read_all`
-- and `close_body`: of the response that came last.
pub record HttpNode (W : Type 0) : Type 0 where
  pub new_request : String → Option Error
  pub send : String → List (String × String) → W → Result ℕ × W
  pub read_all : W → Result String × W
  pub close_body : W → Option Error × W

-- `url` is changed by updates.
pub record HttpWatchConf : Type 0 where
  pub url : String
  pub url_index : ℕ
  pub headers : List (String × String)

-- `returned`: the goroutine has.
pub record HttpWatch (W : Type 0) : Type 0 where
  pub conf : HttpWatchConf
  pub watch : Watch
  pub readers : List (Chan String)
  pub drops : ℕ
  pub client : Bool
  pub returned : Bool
  pub node : W

abbrev pub new_http_watch : {W : Type 0} → HttpWatchConf → W → HttpWatch W
new_http_watch conf w = record {
  conf = conf;
  watch = new_watch;
  readers = [];
  drops = 0;
  client = false;
  returned = false;
  node = w;
}

pub data HttpInput : Type 0 where
  url_update : ConfigUpdate → HttpInput
  interval : HttpInput
  stop_key : HttpInput

module _ {W : Type 0} (env : HttpNode W) where
  -- `h.URL = ep.URL`, if it is another.
  abbrev pub set_url : HttpWatch W → PefEndpoint → HttpWatch W
  set_url s ep =
      if str_eq ep.url s.conf.url then s else record s { conf = record s.conf { url = ep.url } }

  unfoldable pub on_url_update : List PefEndpoint → HttpWatch W → Outcome (HttpWatch W)
  on_url_update eps s =
      if length eps == 0
      then done s
      else if leb (length eps + 1) s.conf.url_index
      then done s
      else or_panic (get_elem? eps s.conf.url_index) >>= λ ep. done (set_url s ep)

  -- The base's `Emit`.
  abbrev pub emit_body : String → HttpWatch W → HttpWatch W
  emit_body out s =
      let (chans, n) = emit_all out s.readers in record s { readers = chans; drops = s.drops + n }

  abbrev pub on_body : Result String × W → HttpWatch W → HttpWatch W
  on_body (err e, w) s = record s { node = (env.close_body w).1 }
  on_body (ok out, w) s = emit_body out (record s { node = (env.close_body w).1 })

  abbrev pub on_response : Result ℕ × W → HttpWatch W → HttpWatch W
  on_response (err e, w) s = record s { node = w }
  on_response (ok status, w) s =
      if ltb 299 status
      then record s { node = (env.close_body w).1 }
      else on_body (env.read_all w) s

  abbrev pub on_request : Option Error → HttpWatch W → HttpWatch W
  on_request (some e) s = s
  on_request none s = on_response (env.send s.conf.url s.conf.headers s.node) s

  unfoldable pub on_interval : HttpWatch W → HttpWatch W
  on_interval s = on_request (env.new_request s.conf.url) s

  abbrev pub on_http_input : HttpInput → HttpWatch W → Outcome (HttpWatch W)
  on_http_input (url_update upd) s = on_url_update upd.val s
  on_http_input interval s = done (on_interval s)
  on_http_input stop_key s = done (record s { returned = true })

  unfoldable pub http_inputs : List HttpInput → HttpWatch W → Outcome (HttpWatch W)
  http_inputs [] s = done s
  http_inputs (i ∷ inputs) s =
      on_http_input i s >>= λ r. if r.returned then done r else http_inputs inputs r

  unfoldable pub start_http : List HttpInput → HttpWatch W → Outcome (HttpWatch W)
  start_http inputs s =
      http_inputs inputs (record s { watch = start_unsafe s.watch; client = true })

  abbrev pub stop_http : HttpWatch W → Outcome (HttpWatch W)
  stop_http s = stop s.watch >>= λ w. done (record s { watch = w })
