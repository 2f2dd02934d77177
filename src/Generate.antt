-- ===== src/Generate.antt =====
-- Generate of the sessions of both adapters (internal/manager/adapter_llama_server.go and
-- adapter_llama_subprocess.go): one request for a completion, and the reading of its stream.
pub mod Reading
pub mod Sessions
pub mod Fine
pub mod Success
pub mod Keeps
pub mod Served
use modeld_go.Common.{
  ℕ, Bool, true, false, ◌&&◌, Option, none, some, List, [], ◌∷◌, ◌++◌, Text, codes, is_empty,
  trim_space, ℤ, pos, leb_ℤ, ltb_ℤ, if◌then◌else◌,
}
use modeld_go.Errors.{Error, plain, Result, ok, err}
use modeld_go.Stream.{Decoder, Lines, Ended, server_read, subprocess_read}
use modeld_go.Server.{ServerAdapter}
use modeld_go.Output.{Outcome, value, panicked}
use modeld_go.Infer.{InferParams, Usage, FinalResult, Sink, OnToken, Session}

-- openAICompletionRequest
pub record CompletionRequest : Type 0 where
  pub model : Text
  pub prompt : Text
  pub params : InferParams
  pub stream : Bool

-- The HTTP request: its URL, the text of its Authorization header (`none` without one), and its body.
pub record Call : Type 0 where
  pub url : Text
  pub authorization : Option Text
  pub body : CompletionRequest

-- The response: its status and status line, the first 4096 bytes of its body, and the body as lines.
pub record Reply : Type 0 where
  pub code : ℤ
  pub line : Text
  pub excerpt : Text
  pub lines : Lines

-- What meets one call: the making of the request (http.NewRequestWithContext), the sending, ctx.Err()
-- if the sending fails and if the stream ends with an error, and encoding/json.
pub record GenerateEnv : Type 0 where
  pub make_request : Text → Option Error
  pub post : Call → Result Reply
  pub ctx_post : Option Error
  pub ctx_read : Option Error
  pub decoder : Decoder

abbrev pub final_of : Text → FinalResult
final_of reason = record {
  content = [];
  usage = record { prompt_tokens = pos 0; completion_tokens = pos 0; total_tokens = pos 0 };
  finish_reason = reason;
}

-- The state of the reading: what the callback has written, and the panic of the callback, if it did.
abbrev pub Heard : Type 0 → Type 0
Heard W = Sink W × Option Text

abbrev pub noted : {W : Type 0} → Sink W × Outcome (Option Error) → Heard W × Option Error
noted (s, value e) = ((s, none), e)
noted (s, panicked why) = ((s, some why), some (plain why))

-- The callback; a panic leaves the loop as an error does.
unfoldable pub guarded : {W : Type 0} → OnToken W → Text → Heard W → Heard W × Option Error
guarded tok t (s, p) = noted (tok t s)

unfoldable pub closed :
    {W : Type 0} → Ended (Heard W) → Sink W × Outcome (FinalResult × Option Error)
closed ((s, some why), reason, e) = (s, panicked why)
closed ((s, none), reason, e) = (s, value (final_of reason, e))

-- The error of the sending, in whose place that of the context goes.
abbrev preferred : Option Error → Error → Error
preferred none e = e
preferred (some c) e = c

module _ {W : Type 0} (env : GenerateEnv)
    (read : OnToken W → Lines → Sink W → Sink W × Outcome (FinalResult × Option Error)) where
  -- The response to the request.
  unfoldable pub replied :
      OnToken W → Sink W → Result Reply → Sink W × Outcome (FinalResult × Option Error)
  replied tok s (err e) = (s, value (final_of [], some (preferred env.ctx_post e)))
  replied tok s (ok r) =
      if leb_ℤ (pos 200) r.code && ltb_ℤ r.code (pos 300) then read tok r.lines s else (
        s,
        value (
          final_of [],
          some (plain (codes "llama server http error: " ++ r.line ++ codes ": " ++ r.excerpt)),
        ),
      )

  unfoldable pub generate :
      Call → OnToken W → Sink W → Sink W × Outcome (FinalResult × Option Error)
  unfolding replied
  generate call tok s = elim (env.make_request call.url) [
    | some e ↦ (s, value (final_of [], some e))
    | none ↦ replied tok s (env.post call)
  ]

-- The requests of the two sessions.
abbrev pub subprocess_call : Text → InferParams → Text → Call
subprocess_call base_url params prompt = record {
  url = base_url ++ codes "/v1/completions";
  authorization = none;
  body = record { model = []; prompt = prompt; params = params; stream = true };
}

abbrev pub server_call : ServerAdapter → Text → InferParams → Text → Call
server_call a model_id params prompt = record {
  url = a.base_url ++ codes "/v1/completions";
  authorization = if is_empty a.api_key then none else some (codes "Bearer " ++ a.api_key);
  body = record { model = model_id; prompt = prompt; params = params; stream = true };
}

module _ {W : Type 0} (env : GenerateEnv) where
  unfoldable pub read_subprocess :
      OnToken W → Lines → Sink W → Sink W × Outcome (FinalResult × Option Error)
  unfolding guarded closed
  read_subprocess tok l s =
      closed (subprocess_read (guarded tok) env.decoder env.ctx_read l (s, none))

  unfoldable pub read_server :
      OnToken W → Lines → Sink W → Sink W × Outcome (FinalResult × Option Error)
  unfolding guarded closed
  read_server tok l s = closed (server_read (guarded tok) env.decoder env.ctx_read l (s, none))

  -- llamaSubprocessSession, with the base URL of its process. Its Close does nothing.
  unfoldable pub subprocess_session : Text → InferParams → Text → Session W
  unfolding generate read_subprocess
  subprocess_session base_url params prompt = record {
    generate = generate env read_subprocess (subprocess_call base_url params prompt);
    close = none;
  }

  -- The session that Start of the server adapter returns for a model path.
  unfoldable pub server_session : ServerAdapter → Text → InferParams → Text → Session W
  unfolding generate read_server
  server_session a model_path params prompt = record {
    generate = generate env read_server (server_call a (trim_space model_path) params prompt);
    close = none;
  }
