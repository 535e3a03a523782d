-- ===== src/Server/Io.antt =====
-- main.go and upstream.go: what a request for a completion meets outside the program, and how it ends.
use trae_api.Prelude.{ℕ, String, Bool, Option, List}
use trae_api.Fault.{Fault, Result}
use trae_api.Chat.{ChatRequest, Completion}
use trae_api.Route.{Body}
use trae_api.Models.Cache.{Cache}
use trae_api.Models.Discovery.{Answer}
use trae_api.Store.Codec.{ApiCredential}
use trae_api.Upstream.{Delta}

-- One look for the models: the answers to its requests, and the readings of the clock.
pub record Asking : Type 0 where
  pub batch : Answer
  pub single : String → Answer
  pub start : ℕ
  pub now : ℕ
  pub later : ℕ

-- What a request for a completion meets.
pub data Reply : Type 0 where
  -- http.NewRequestWithContext failed, or no connection; with the error of the context, if it is done
  malformed : Fault → Reply
  unsent : Option Fault → Reply
  -- the status, the lines of the body, and whether scanner.Err() is set after them
  replied : ℕ → List String → Bool → Reply

-- How the select of acquireGate ends.
pub data Wait : Type 0 where
  slot : Wait
  done : Fault → Wait
  timeout : Wait

pub record Outside : Type 0 where
  -- ctx.Err() at the start of execute, and at the start of acquireGate
  pub cancelled : Option Fault
  pub cancelled_at_gate : Option Fault
  pub wait : Wait
  pub credential : Result ApiCredential
  -- snapshotIdentity
  pub identity : ApiCredential → ℕ
  -- sort.Strings
  pub sort : List String → List String
  -- for "auto", before the stream starts, and in promptAttempt
  pub first : Asking
  pub second : Asking
  pub third : Asking
  -- newID("request_")
  pub request_id : String
  pub reply : ApiCredential → Body → Reply

-- How it ends: the request as it was changed, the deltas that emit has accepted, newest first, and
-- the cache and the slots in use as they are left.
pub record Executed : Type 0 where
  pub request : ChatRequest
  pub outcome : Result Completion
  pub delivered : List Delta
  pub cache : Cache
  pub used : ℕ
