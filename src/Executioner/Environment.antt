-- ===== src/Executioner/Environment.antt =====
-- execution/executioner.cpp: handle_exec_request, the environment of the new process. The ports and the
-- settings are read by the configuration utilities and given as texts.
pub mod Kept
use velix.Prelude.{
  Str, Option, none, some, Bool, if◌then◌else◌, codes, List, [], ◌∷◌, ◌++◌, Map, find, insert,
  str_eq, is_empty,
}

abbrev pub Env : Type 0
Env = Map Str Str

-- What the request and the configuration give.
pub record EnvSource : Type 0 where
  pub parent_pid : Str
  pub intent : Str
  pub trace_id : Str
  pub process_name : Str
  pub tree_id : Str
  pub params : Str
  pub user_id : Str
  pub workspace_root : Str
  pub old_pythonpath : Option Str
  pub port : Str → Str
  pub setting : Str → Str
  pub max_tool_output_chars : Str
  pub max_file_read_bytes : Str

-- PYTHONPATH is kept behind the workspace where it is set and not empty.
unfoldable pub pythonpath : EnvSource → Str
pythonpath s = elim s.old_pythonpath [
  | none ↦ s.workspace_root
  | some p ↦ if is_empty p then s.workspace_root else s.workspace_root ++ (58 ∷ p)
]

unfoldable pub base_env : Bool → EnvSource → Env
unfolding pythonpath
base_env join_tree s =
    (codes "VELIX_PARENT_PID", s.parent_pid)
    ∷ ((codes "VELIX_BUS_PORT", s.port (codes "BUS"))
        ∷ ((codes "VELIX_INTENT", s.intent)
            ∷ ((codes "VELIX_TRACE_ID", s.trace_id)
                ∷ ((codes "VELIX_PROCESS_NAME", s.process_name)
                    ∷ ((codes "VELIX_TREE_ID", if join_tree then s.tree_id else [])
                        ∷ ((codes "VELIX_PARAMS", s.params)
                            ∷ ((codes "VELIX_USER_ID", s.user_id)
                                ∷ ((codes "PYTHONPATH", pythonpath s) ∷ []))))))))

abbrev pub port_injections : EnvSource → List (Str × Str)
port_injections s =
    (codes "VELIX_PORT_SUPERVISOR", s.port (codes "SUPERVISOR"))
    ∷ ((codes "VELIX_PORT_BUS", s.port (codes "BUS"))
        ∷ ((codes "VELIX_PORT_SCHEDULER", s.port (codes "SCHEDULER"))
            ∷ ((codes "VELIX_PORT_LLM_SCHEDULER", s.port (codes "LLM_SCHEDULER"))
                ∷ ((codes "VELIX_PORT_EXECUTIONER", s.port (codes "EXECUTIONER")) ∷ []))))

abbrev pub sdk_names : List Str
sdk_names =
    codes "SDK_RETRY_LIMIT"
    ∷ (codes "SDK_RETRY_DELAY_MS"
        ∷ (codes "SDK_EXEC_TIMEOUT_MS"
            ∷ (codes "SDK_EXEC_RETRY_LIMIT"
                ∷ (codes "SDK_EXEC_RETRY_DELAY_MS"
                    ∷ (codes "SDK_LLM_TIMEOUT_MS"
                        ∷ (codes "SDK_STREAM_POLL_TIMEOUT_MS"
                            ∷ (codes "SDK_STREAM_MAX_CHUNKS"
                                ∷ (codes "SDK_MAX_ITERATIONS"
                                    ∷ (codes "SDK_BUS_WAIT_MIN"
                                        ∷ (codes "SDK_HEARTBEAT_SEC" ∷ []))))))))))

unfoldable pub sdk_injections : EnvSource → List Str → List (Str × Str)
sdk_injections s [] = []
sdk_injections s (name ∷ l) = (codes "VELIX_" ++ name, s.setting name) ∷ sdk_injections s l

abbrev pub limit_injections : EnvSource → List (Str × Str)
limit_injections s =
    (codes "VELIX_MAX_TOOL_OUTPUT_CHARS", s.max_tool_output_chars)
    ∷ ((codes "VELIX_MAX_FILE_READ_BYTES", s.max_file_read_bytes) ∷ [])

-- Only what is not set yet.
abbrev pub put_new : Str → Str → Env → Env
put_new k v env = elim (find k env) [ none ↦ insert k v env | some w ↦ env ]

unfoldable pub inject : List (Str × Str) → Env → Env
unfolding find insert
inject [] env = env
inject ((k, v) ∷ l) env = inject l (put_new k v env)

-- env[k] = v for each.
unfoldable pub override_all : List (Str × Str) → Env → Env
unfolding insert
override_all [] env = env
override_all ((k, v) ∷ l) env = override_all l (insert k v env)

unfoldable pub environment : Bool → EnvSource → List (Str × Str) → Env
unfolding base_env sdk_injections inject override_all
environment join_tree s overrides =
    let ports : Env = inject (port_injections s) (base_env join_tree s) in
    let sdk : Env = inject (sdk_injections s sdk_names) ports in
    override_all overrides (inject (limit_injections s) sdk)
