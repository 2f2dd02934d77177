-- ===== src/Tests/Instances.antt =====
-- The manager's operations on its instances, at concrete inputs.
use modeld_go.Common.{
  ◌+◌, ◌*◌, ◌≡◌, ◌↔◌, refl, true, false, none, some, [], ◌∷◌, codes, text_dec, arith,
}
use modeld_go.Errors.{model_not_found, ok, err}
use modeld_go.Config.{second}
use modeld_go.Manager.{Manager, absent, subprocess, ready}
use modeld_go.Manager.Instances.{find, Distinct, get_model_by_id, estimate_vram_mb}
use modeld_go.Manager.Evict.{pick_lru, evict_until_fits}
use modeld_go.Manager.Evict.Victim.{IsVictim, pick_lru-IsVictim}
use modeld_go.Manager.Evict.Outcome.{Returns, evict_until_fits_lem}
use modeld_go.Manager.Ensure.{ensure_instance, has_ready}
use modeld_go.Manager.Ensure.Books.{Accounts, ensure_instance_books}
use modeld_go.Manager.Unload.{UnloadEnv, unload}
use modeld_go.Manager.Unload.Outcome.{Owns, Unloaded, unload_lem}
use modeld_go.Manager.Preflight.{PreflightEnv, preflight, all_ok}
use modeld_go.Manager.Preflight.Soundness.{Runnable, preflight_lem}
use modeld_go.Tests.Fixtures.{
  model, llama, other, two, instance_of, manager_with, runtime, process, ensure_env,
}

two-Distinct : Distinct two
unfolding Distinct find text_dec
two-Distinct = (refl, (refl, tt))

pick_lru-IsVictim_example : IsVictim two (pick_lru none two)
pick_lru-IsVictim_example = pick_lru-IsVictim two two-Distinct

abbrev full : Manager
full = manager_with ready two (subprocess (runtime ((llama, process) ∷ [])))

evict_until_fits_lem_example :
    Returns (λ k. k) (0 + second) 10 full (evict_until_fits 0 (λ k. k) 10 full)
evict_until_fits_lem_example = evict_until_fits_lem 0 (λ k. k) 10 full two-Distinct refl

abbrev one : Manager
one = manager_with ready (instance_of other 1 3 ∷ []) absent

one-Distinct : Distinct one.instances
unfolding Distinct find
one-Distinct = (refl, tt)

not_there : find llama one.instances ≡ none
unfolding find text_dec
not_there = refl

in_registry : get_model_by_id llama one.registry ≡ some (model llama)
unfolding get_model_by_id text_dec
in_registry = refl

ensure_instance_books_example :
    Accounts llama
      (estimate_vram_mb (ensure_env.stat (codes "/m/a.gguf")))
      one
      (ensure_instance ensure_env llama one)
ensure_instance_books_example =
    ensure_instance_books ensure_env llama (model llama) one one-Distinct tt refl not_there
      in_registry

abbrev polls : UnloadEnv
polls = record { start = 0; clock = λ k. k * second; others = λ k. λ i. i }

there : find llama full.instances ≡ some (instance_of llama 0 5)
unfolding find text_dec
there = refl

full-Owns : Owns llama 0 full.instances
unfolding find
full-Owns j x e r = ground arith

unload_lem_example :
    (n : Manager) × (unload 5 polls llama full ≡ some (n, none))
    × Unloaded llama (instance_of llama 0 5) full n
unload_lem_example =
    unload_lem 5 polls llama full (instance_of llama 0 5) 3 two-Distinct full-Owns refl refl there
      (omega arith) (omega arith)

llama_ready : has_ready llama full ≡ true
unfolding has_ready find text_dec
llama_ready = refl

abbrev preflight_env : PreflightEnv
preflight_env = record {
  stat = λ path. ok false;
  get = λ url. λ key. λ limit. err (model_not_found url);
}

preflight_lem_example :
    (all_ok (preflight preflight_env full) ≡ true) ↔ Runnable preflight_env full full.adapter
preflight_lem_example = preflight_lem preflight_env full
