-- ===== src/Tests/Streams.antt =====
-- Streams, writers and lines, at concrete inputs.
use modeld_go.Common.{◌≡◌, refl, true, none, some, [], ◌∷◌, ◌++◌, Text, codes, pos, arith}
use modeld_go.Stream.{Decoder, Lines}
use modeld_go.Stream.Tokens.{tokens, last_reason}
use modeld_go.Output.{write_all}
use modeld_go.Infer.{InferParams, Usage, stream}
use modeld_go.Errors.{ok}
use modeld_go.Generate.{GenerateEnv, Reply, final_of, subprocess_session}
use modeld_go.Server.{ServerAdapter}
use modeld_go.Infer.Success.{Takes}
use modeld_go.Generate.Success.{subprocess_session_succeeds}
use modeld_go.Generate.Sessions.{shown, subprocess_session-Streamed}
use modeld_go.Output.Writing.{Written, write_all-Written}
use modeld_go.Infer.Document.{feed, document, Streamed}
use modeld_go.Infer.Streaming.{stream-Streamed}
use modeld_go.Http.Logging.{LineWriter, line_write, cut_line}
use modeld_go.Http.Logging.Lines.{line_write-append}
use modeld_go.Tests.Calls.{short_write, short-Wrote, infer_env, no_flush, final}

-- A payload is its own content, with no finish reason.
abbrev pub decoder : Decoder
decoder = record { choice = λ p. some (p, []); content = λ p. none }

abbrev two_lines : Lines
two_lines = record {
  lines = codes "data: a" ∷ codes "" ∷ codes "data: b" ∷ codes "data: [DONE]" ∷ [];
  rest = [];
  ending = none;
}

write_all-Written_example :
    Written (λ w. w) (codes "hello") (codes "x") (write_all short_write (codes "hello") (codes "x"))
write_all-Written_example =
    write_all-Written (λ w. w) short_write short-Wrote (codes "hello") (codes "x")

stream-Streamed_example :
    let ts = codes "a" ∷ codes "b" ∷ [] in
    Streamed infer_env
      (λ w. w)
      (document infer_env (λ w. w) ts final)
      []
      (stream infer_env (record { generate = feed ts final none; close = none }) [])
stream-Streamed_example =
    stream-Streamed infer_env (λ w. w) short-Wrote no_flush (codes "a" ∷ codes "b" ∷ []) final none
      none []

abbrev empty_writer : LineWriter
empty_writer = record { buf = []; logged = [] }

line_write-append_example :
    line_write (codes "c\n") (line_write (codes "a\nb") empty_writer)
    ≡ line_write (codes "a\nb" ++ codes "c\n") empty_writer
unfolding cut_line
line_write-append_example = line_write-append (codes "a\nb") (codes "c\n") empty_writer refl

abbrev pub answer : Reply
answer = record { code = pos 200; line = codes "200 OK"; excerpt = []; lines = two_lines }

-- A server that answers each request with two lines.
abbrev pub answers : GenerateEnv
answers = record {
  make_request = λ url. none;
  post = λ call. ok answer;
  ctx_post = none;
  ctx_read = none;
  decoder = decoder;
}

abbrev params : InferParams
params = record {
  temperature = pos 0;
  top_p = pos 0;
  top_k = pos 0;
  max_tokens = pos 2;
  stop = [];
  seed = pos 0;
  repeat_penalty = pos 0;
}

subprocess_session-Streamed_example :
    Streamed infer_env
      (λ w. w)
      (document infer_env
        (λ w. w)
        (tokens decoder (shown answer))
        (final_of (last_reason decoder [] (shown answer))))
      []
      (stream infer_env (subprocess_session answers (codes "http://h") params (codes "p")) [])
subprocess_session-Streamed_example =
    subprocess_session-Streamed infer_env (λ w. w) short-Wrote no_flush answers (codes "http://h")
      params (codes "p") answer [] refl refl refl

Takes-two : Takes infer_env.write
Takes-two c [] w = (w ++ c ∷ [], 0, omega arith, refl)
Takes-two c (d ∷ p) w = (w ++ c ∷ d ∷ [], 1, omega arith, refl)

encodes :
    (content reason : Text) (usage : Usage)
    → (line : Text) × (infer_env.final_line content reason usage ≡ ok line)
encodes content reason usage = (codes "done:" ++ content, refl)

subprocess_session_succeeds_example :
    ((stream infer_env (subprocess_session answers (codes "http://h") params (codes "p")) []).1
      ≡ none)
    × ((stream infer_env (subprocess_session answers (codes "http://h") params (codes "p")) []).0
        ≡ []
          ++ document infer_env
              (λ w. w)
              (tokens decoder (shown answer))
              (final_of (last_reason decoder [] (shown answer))))
subprocess_session_succeeds_example =
    subprocess_session_succeeds infer_env (λ w. w) short-Wrote no_flush Takes-two (λ k. refl)
      encodes answers (codes "http://h") params (codes "p") answer [] refl refl refl refl

abbrev pub remote : ServerAdapter
remote = record {
  base_url = codes "http://h";
  api_key = codes "k";
  use_open_ai = true;
  req_timeout = pos 0;
  connect_timeout = pos 0;
}
