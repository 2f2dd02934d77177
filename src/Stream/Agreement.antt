-- ===== src/Stream/Agreement.antt =====
-- The two adapters read alike (generateOpenAI in internal/manager/adapter_llama_server.go and Generate
-- in internal/manager/adapter_llama_subprocess.go).
use modeld_go.Common.{◌≡◌, ap, Option, none, [], Text, arith, Option-cases, inl, inr}
use mathlib.Core.Path.{fun_ext}
use modeld_go.Errors.{Error}
use modeld_go.Stream.{
  Decoder, Lines, OnToken, deliver_plain, server_payload, subprocess_payload, read_lines,
  server_read, subprocess_read,
}

payload_alike :
    {S : Type 0} (on_token : OnToken S) (d : Decoder)
    → ((p : Text) → d.choice p ≡ none → d.content p ≡ none)
    → (p reason : Text) (s : S)
    → server_payload on_token d p reason s ≡ subprocess_payload on_token d p reason s
unfolding server_payload subprocess_payload deliver_plain
payload_alike on_token d plain p reason s = elim (Option-cases (d.choice p)) [
  | inl q ↦ ground (arith, plain p q)
  | inr (c, q) ↦ ground arith
]

-- On a stream none of whose payloads is a plain object with a text for its content, the server adapter
-- and the subprocess adapter make the same calls of the callback, and end alike.
pub read_agreement :
    {S : Type 0} (on_token : OnToken S) (d : Decoder) (ctx : Option Error) (l : Lines) (s : S)
    → ((p : Text) → d.choice p ≡ none → d.content p ≡ none)
    → server_read on_token d ctx l s ≡ subprocess_read on_token d ctx l s
unfolding server_read subprocess_read
read_agreement on_token d ctx l s plain =
    ap (λ take. read_lines take ctx l.lines l.rest l.ending [] s)
      (fun_ext λ p. fun_ext λ reason. fun_ext λ t. payload_alike on_token d plain p reason t)
