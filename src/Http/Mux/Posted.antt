-- ===== src/Http/Mux/Posted.antt =====
-- POST /infer from the router to the response, through the middlewares, the handler, Infer and the server
-- adapter (internal/httpapi, internal/manager/inference.go and adapter_llama_server.go).
use modeld_go.Manager.{Manager}
use modeld_go.Http.Settings.{Settings}
use modeld_go.Http.Mux.Served as Served
