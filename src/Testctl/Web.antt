-- ===== src/Testctl/Web.antt =====
-- The test suites: tests.go, web_helpers.go, web_haiku.go, web_live.go and web_mock.go of
-- internal/testctl.
use modeld_go.Common.{
  ℕ, ◌*◌, false, List, [], ◌∷◌, ◌++◌, Text, codes, decimal, ℤ, pos, if◌then◌else◌,
}
use modeld_go.Errors.{plain, wrapped}
use modeld_go.Testctl.{Cmd, Machine, Script, pure, fail, gets, deferred, failing_as, ◌>>=◌, ◌>>◌}
use modeld_go.Testctl.Run.{
  info, run_cmd_streaming, run_env_cmd_streaming, start_tracked, kill, kill_processes,
}
use modeld_go.Testctl.Files.{models_dir, first_gguf, has_host_models, find_llama_bin}
use modeld_go.Testctl.Ports.{second, prefer_or_free, wait_http}
use modeld_go.Testctl.Install.{is_missing, py_dir, install_py}

-- Config
pub record Config : Type 0 where
  pub web_port : ℤ
  pub log_lvl : Text

abbrev pub local_url : ℤ → Text → Text
local_url port path = codes "http://localhost:" ++ (decimal port ++ path)

-- The shell command of the server.
abbrev pub server_line : ℤ → Text → Text → Text → Text
server_line port dir model rest =
    codes "go run ./cmd/modeld --addr :"
    ++ (decimal port
        ++ (codes " --models-dir '"
            ++ (dir
                ++ (codes "' --default-model '"
                    ++ (model ++ (codes "' --cors-enabled --cors-origins '*'" ++ rest))))))

abbrev pub shell_cmd : Text → Cmd
shell_cmd line = record {
  path = codes "bash";
  args = codes "-lc" ∷ line ∷ [];
  env = [];
  dir = [];
  stream = false;
}

abbrev pub preview_cmd : ℤ → Cmd
preview_cmd port = record {
  path = codes "pnpm";
  args = codes "-C" ∷ codes "web" ∷ codes "preview" ∷ codes "--port" ∷ decimal port ∷ [];
  env = [];
  dir = [];
  stream = false;
}

-- The settings of a build that points to a server.
abbrev pub web_settings : ℤ → List (Text × Text)
web_settings api =
    (codes "VITE_USE_MOCKS", codes "0")
    ∷ (codes "VITE_API_BASE_URL", local_url api [])
    ∷ (codes "VITE_SEND_STREAM_FIELD", codes "true")
    ∷ []

abbrev pub base_url : ℤ → Text × Text
base_url web = (codes "CYPRESS_BASE_URL", local_url web [])

module _ {W : Type 0} (m : Machine W) where
  unfoldable pub run_go_tests : Script W (Unit {0})
  run_go_tests = do
    info m (codes "==== Run Go tests ====")
    run_cmd_streaming m (codes "go") (codes "test" ∷ codes "./..." ∷ codes "-v" ∷ [])

  abbrev pytest : Text
  pytest = codes "tests/e2e_py/.venv/bin/pytest"

  -- The virtual environment, which is installed if it is missing.
  unfoldable pub ensure_pytest : Script W (Unit {0})
  ensure_pytest = do
    found ← gets (m.stat pytest)
    if is_missing found
        then (do info m (codes "Python venv not found; installing..."); install_py m)
        else pure tt

  unfoldable pub run_py_tests : Script W (Unit {0})
  run_py_tests = do
    info m (codes "==== Run Python E2E tests ====")
    ensure_pytest
    run_cmd_streaming m pytest (codes "-q" ∷ py_dir ∷ [])

  unfoldable pub run_py_test_haiku : Script W (Unit {0})
  run_py_test_haiku = do
    info m (codes "==== Run Python E2E haiku test ====")
    ensure_pytest
    run_cmd_streaming m pytest (codes "-q" ∷ codes "-s" ∷ codes "tests/e2e_py/test_haiku.py" ∷ [])

  unfoldable pub build_web_with : List (Text × Text) → Script W (Unit {0})
  build_web_with env =
      run_env_cmd_streaming m env (codes "pnpm") (codes "-C" ∷ codes "web" ∷ codes "build" ∷ [])

  unfoldable pub start_preview : ℤ → Script W ℕ
  start_preview port = start_tracked m (preview_cmd port)

  unfoldable pub run_cypress : List (Text × Text) → List Text → Script W (Unit {0})
  run_cypress env [] =
      run_env_cmd_streaming m env (codes "pnpm") (codes "run" ∷ codes "test:e2e:run" ∷ [])
  run_cypress env (name ∷ args) = run_env_cmd_streaming m env name args

  -- The preview of the web application, and a run of Cypress while it is up.
  unfoldable pub with_preview : ℤ → Script W (Unit {0}) → Script W (Unit {0})
  with_preview web tests = do
    preview ← start_preview web
    deferred (kill m preview) (do wait_http m (local_url web []) (pos 200) (60 * second); tests)

  -- A server, and what is done while it is up.
  unfoldable pub with_server : Cmd → ℤ → Script W (Unit {0}) → Script W (Unit {0})
  with_server cmd api rest = do
    srv ← start_tracked m cmd
    deferred (kill m srv)
        (do wait_http m (local_url api (codes "/healthz")) (pos 200) (60 * second); rest)

  -- The model that the tests use.
  unfoldable pub default_model : Text → Script W Text
  default_model dir =
      failing_as (wrapped (codes "finding default model")) (λ s. (s, first_gguf m dir s.world))

  unfoldable pub haiku_body : ℤ → ℤ → Script W (Unit {0})
  haiku_body api web = do
    dir ← gets (models_dir m)
    model ← default_model dir
    bin ← gets (find_llama_bin m)
    with_server
        (shell_cmd (server_line api dir model (codes " --llama-bin '" ++ (bin ++ codes "'")))) api
        (do
          build_web_with (web_settings api)
          with_preview web (
              run_cypress
                (base_url web
                  ∷ (codes "CYPRESS_API_READY_URL", local_url api (codes "/readyz"))
                  ∷ (codes "CYPRESS_API_STATUS_URL", local_url api (codes "/status"))
                  ∷ [])
                (codes "xvfb-run"
                  ∷ codes "-a"
                  ∷ codes "pnpm"
                  ∷ codes "exec"
                  ∷ codes "cypress"
                  ∷ codes "run"
                  ∷ codes "--config-file"
                  ∷ codes "e2e/cypress.config.ts"
                  ∷ codes "--spec"
                  ∷ codes "e2e/specs/haiku_center.cy.ts"
                  ∷ [])))

  -- The two ports, the second beside the first.
  unfoldable pub web_ports : ℤ → Script W (ℤ × ℤ)
  web_ports port = do
    api ← prefer_or_free m (pos 18080)
    web ← prefer_or_free m port
    pure (api, web)

  abbrev pub cleaned : (ℤ → ℤ → Script W (Unit {0})) → ℤ × ℤ → Script W (Unit {0})
  cleaned body (api, web) = deferred (kill_processes m) (body api web)

  unfoldable pub test_web_haiku_host : Config → Script W (Unit {0})
  test_web_haiku_host cfg = do
    present ← gets (has_host_models m)
    if present
        then pure tt
        else fail (plain (codes "host models not found in $HOME/models/llm; cannot run haiku test"))
    info m (codes "==== Run Cypress (Haiku Host) ====")
    ports ← web_ports cfg.web_port
    cleaned haiku_body ports

  unfoldable pub live_body : ℤ → ℤ → Script W (Unit {0})
  live_body api web = do
    dir ← gets (models_dir m)
    model ← default_model dir
    with_server (shell_cmd (server_line api dir model [])) api (do
      build_web_with (web_settings api)
      with_preview web (run_cypress (base_url web ∷ []) []))

  unfoldable pub test_web_live_host : Config → Script W (Unit {0})
  test_web_live_host cfg = do
    present ← gets (has_host_models m)
    if present
        then pure tt
        else fail
            (plain (codes "host models not found in $HOME/models/llm; cannot run host UI tests"))
    info m (codes "==== Run Cypress (Host) ====")
    ports ← web_ports cfg.web_port
    cleaned live_body ports

  unfoldable pub test_web_mock : Config → Script W (Unit {0})
  test_web_mock cfg = do
    info m (codes "==== Run Cypress (Live UI Preview) ====")
    web ← prefer_or_free m cfg.web_port
    deferred (kill_processes m)
        (do build_web_with []; with_preview web (run_cypress (base_url web ∷ []) []))
