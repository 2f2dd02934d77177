-- ===== src/Startup/Flags.antt =====
-- cmd/modeld/main.go: the flags, and what a configuration file does to them.
use modeld_go.Common.{
  Bool, true, false, ◌≡◌, refl, ◌&&◌, not, Option, none, some, List, [], ◌∷◌, Text, codes, is_empty,
  ℤ, pos, ltb_ℤ, leb_ℤ, if◌then◌else◌, ◌⊎◌, Bool-cases, inl, inr,
}
use modeld_go.Startup.Paths.{join_with}
use modeld_go.Startup.File.{ConfigFile, unspecified}

-- A flag: its value, and whether it was set on the command line.
pub record Flag {ℓ} (A : Type ℓ) : Type ℓ where
  pub value : A
  pub is_set : Bool

-- The flags that a configuration file can replace. Durations are nanoseconds.
pub record Flags : Type 0 where
  pub addr : Flag Text
  pub models_dir : Flag Text
  pub vram_budget_mb : Flag ℤ
  pub vram_margin_mb : Flag ℤ
  pub default_model : Flag Text
  pub log_level : Flag Text
  pub max_body_bytes : Flag ℤ
  pub infer_timeout : Flag ℤ
  pub cors_enabled : Flag Bool
  pub cors_origins : Flag Text
  pub cors_methods : Flag Text
  pub cors_headers : Flag Text
  pub max_queue_depth : Flag ℤ
  pub max_wait : Flag ℤ
  pub llama_url : Flag Text
  pub llama_api_key : Flag Text
  pub llama_timeout : Flag ℤ
  pub llama_connect_timeout : Flag ℤ
  pub llama_use_openai : Flag Bool

-- `if !setFlags[name] && given { *flag = v }`
abbrev pub replaced {ℓ} : {A : Type ℓ} → Bool → A → Flag A → Flag A
replaced given v f = if not f.is_set && given then record f { value = v } else f

abbrev pub with_text : Text → Flag Text → Flag Text
with_text t f = replaced (not (is_empty t)) t f

abbrev is_zero : ℤ → Bool
is_zero n = leb_ℤ n (pos 0) && leb_ℤ (pos 0) n

-- `!= 0` and `> 0`.
abbrev pub with_nonzero : ℤ → Flag ℤ → Flag ℤ
with_nonzero n f = replaced (not (is_zero n)) n f

abbrev pub with_positive : ℤ → Flag ℤ → Flag ℤ
with_positive n f = replaced (ltb_ℤ (pos 0) n) n f

-- time.ParseDuration; a text that is no duration is passed over.
abbrev pub with_parsed : Option ℤ → Flag ℤ → Flag ℤ
with_parsed none f = f
with_parsed (some d) f = replaced true d f

abbrev pub with_duration : (Text → Option ℤ) → Text → Flag ℤ → Flag ℤ
with_duration parse t f = if is_empty t then f else with_parsed (parse t) f

-- A list, unless it is empty.
abbrev is_nil : List Text → Bool
is_nil [] = true
is_nil (_ ∷ _) = false

abbrev pub with_list : List Text → Flag Text → Flag Text
with_list ts f = replaced (not (is_nil ts)) (join_with (codes ",") ts) f

-- The merge of a configuration file.
unfoldable pub merge : (Text → Option ℤ) → ConfigFile → Flags → Flags
unfolding join_with
merge parse cfg f = record {
  addr = with_text cfg.addr f.addr;
  models_dir = with_text cfg.models_dir f.models_dir;
  vram_budget_mb = with_nonzero cfg.vram_budget_mb f.vram_budget_mb;
  vram_margin_mb = with_nonzero cfg.vram_margin_mb f.vram_margin_mb;
  default_model = with_text cfg.default_model f.default_model;
  log_level = with_text cfg.log_level f.log_level;
  max_body_bytes = with_positive cfg.max_body_bytes f.max_body_bytes;
  infer_timeout = with_duration parse cfg.infer_timeout f.infer_timeout;
  cors_enabled = replaced true cfg.cors_enabled f.cors_enabled;
  cors_origins = with_list cfg.cors_allowed_origins f.cors_origins;
  cors_methods = with_list cfg.cors_allowed_methods f.cors_methods;
  cors_headers = with_list cfg.cors_allowed_headers f.cors_headers;
  max_queue_depth = with_positive cfg.max_queue_depth f.max_queue_depth;
  max_wait = with_duration parse cfg.max_wait f.max_wait;
  llama_url = with_text cfg.llama_server_url f.llama_url;
  llama_api_key = with_text cfg.llama_api_key f.llama_api_key;
  llama_timeout = with_duration parse cfg.llama_request_timeout f.llama_timeout;
  llama_connect_timeout = with_duration parse cfg.llama_connect_timeout f.llama_connect_timeout;
  llama_use_openai = replaced true cfg.llama_use_open_ai f.llama_use_openai;
}

-- A flag that was set keeps its value.
abbrev pub Keeps {ℓ} : {A : Type ℓ} → Flag A → Flag A → Type ℓ
Keeps f g = (g ≡ f) ⊎ (f.is_set ≡ false)

replaced-Keeps {ℓ} : {A : Type ℓ} (given : Bool) (v : A) (f : Flag A) → Keeps f (replaced given v f)
replaced-Keeps given v f = elim (Bool-cases f.is_set) [
  | inl set ↦ inl (rw set refl)
  | inr unset ↦ inr unset
]

parsed-Keeps : (d : Option ℤ) (f : Flag ℤ) → Keeps f (with_parsed d f)
parsed-Keeps none f = inl refl
parsed-Keeps (some d) f = replaced-Keeps true d f

duration-Keeps :
    (parse : Text → Option ℤ) (t : Text) (f : Flag ℤ) → Keeps f (with_duration parse t f)
duration-Keeps parse [] f = inl refl
duration-Keeps parse (c ∷ t) f = parsed-Keeps (parse (c ∷ t)) f

replaced_not {ℓ} : {A : Type ℓ} (v : A) (f : Flag A) → replaced false v f ≡ f
replaced_not v f = elim (Bool-cases f.is_set) [ inl set ↦ rw set refl | inr unset ↦ rw unset refl ]

-- The command line wins: whatever a configuration file says, the merge keeps every flag that was set.
pub merge-Keeps :
    (parse : Text → Option ℤ) (cfg : ConfigFile) (f : Flags)
    → let g = merge parse cfg f in
      Keeps f.addr g.addr
      × Keeps f.models_dir g.models_dir
      × Keeps f.vram_budget_mb g.vram_budget_mb
      × Keeps f.vram_margin_mb g.vram_margin_mb
      × Keeps f.default_model g.default_model
      × Keeps f.log_level g.log_level
      × Keeps f.max_body_bytes g.max_body_bytes
      × Keeps f.infer_timeout g.infer_timeout
      × Keeps f.cors_enabled g.cors_enabled
      × Keeps f.cors_origins g.cors_origins
      × Keeps f.cors_methods g.cors_methods
      × Keeps f.cors_headers g.cors_headers
      × Keeps f.max_queue_depth g.max_queue_depth
      × Keeps f.max_wait g.max_wait
      × Keeps f.llama_url g.llama_url
      × Keeps f.llama_api_key g.llama_api_key
      × Keeps f.llama_timeout g.llama_timeout
      × Keeps f.llama_connect_timeout g.llama_connect_timeout
      × Keeps f.llama_use_openai g.llama_use_openai
unfolding merge
merge-Keeps parse cfg f = (
  replaced-Keeps _ _ f.addr,
  replaced-Keeps _ _ f.models_dir,
  replaced-Keeps _ _ f.vram_budget_mb,
  replaced-Keeps _ _ f.vram_margin_mb,
  replaced-Keeps _ _ f.default_model,
  replaced-Keeps _ _ f.log_level,
  replaced-Keeps _ _ f.max_body_bytes,
  duration-Keeps parse cfg.infer_timeout f.infer_timeout,
  replaced-Keeps _ _ f.cors_enabled,
  replaced-Keeps _ _ f.cors_origins,
  replaced-Keeps _ _ f.cors_methods,
  replaced-Keeps _ _ f.cors_headers,
  replaced-Keeps _ _ f.max_queue_depth,
  duration-Keeps parse cfg.max_wait f.max_wait,
  replaced-Keeps _ _ f.llama_url,
  replaced-Keeps _ _ f.llama_api_key,
  duration-Keeps parse cfg.llama_request_timeout f.llama_timeout,
  duration-Keeps parse cfg.llama_connect_timeout f.llama_connect_timeout,
  replaced-Keeps _ _ f.llama_use_openai,
)

-- A Boolean flag that was not set on the command line is off, whatever its default is.
abbrev pub switched_off : Flag Bool → Flag Bool
switched_off f = if f.is_set then f else record { value = false; is_set = false }

replaced-switched_off : (f : Flag Bool) → replaced true false f ≡ switched_off f
replaced-switched_off f = elim (Bool-cases f.is_set) [
  | inl set ↦ rw set refl
  | inr unset ↦ rw unset refl
]

-- A configuration file that specifies nothing still switches off what it could not leave out: of the
-- flags that were not set on the command line, cors_enabled and llama_use_openai are off afterwards;
-- where they were set they keep their value, and every other flag is as it was.
pub merge-unspecified :
    (parse : Text → Option ℤ) (f : Flags)
    → merge parse unspecified f ≡ record f {
      cors_enabled = switched_off f.cors_enabled;
      llama_use_openai = switched_off f.llama_use_openai;
    }
unfolding merge
merge-unspecified parse f = simp (replaced_not, replaced-switched_off)
