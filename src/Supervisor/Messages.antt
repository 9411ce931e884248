-- ===== src/Supervisor/Messages.antt =====
-- core/supervisor.cpp: what the handlers read out of a JSON message, and what they answer. A field of `Message` is
-- the value at its key, if there is one of the type that is read; a value of another type makes the JSON library
-- throw before the handler does anything, and that is not modelled.
use velix.Prelude.{ℤ, Str, Bool, Option, none, some, List}
use velix.Registry.State.{ProcessInfo, TreeStatus}

pub record Payload (D : Type 0) : Type 0 where
  pub register_intent : Option Str
  pub role : Option Str
  pub os_pid : Option ℤ
  pub status : Option Str
  pub memory_mb : Option D
  pub trace_id : Option Str
  pub tree_id : Option Str

pub record Message (D : Type 0) : Type 0 where
  pub is_object : Bool
  pub message_type : Option Str
  pub auth_token : Option Str
  pub pid : Option ℤ
  pub source_pid : Option ℤ
  pub tree_id : Option Str
  pub convo_id : Option Str
  pub user_id : Option Str
  pub mode : Option Str
  pub payload : Payload D

-- message.value(key, default)
abbrev pub value {ℓ} : {A : Type ℓ} → Option A → A → A
value none d = d
value (some a) d = a

pub record TreeView : Type 0 where
  pub tree_id : Str
  pub status : TreeStatus
  pub root_pid : ℤ

pub data Response (D : Type 0) : Type 0 where
  failed : Str → Response D
  bad_status : Str → Str → Response D
  os_pid_mismatch : ℤ → ℤ → Response D
  bad_source : Str → ℤ → Response D
  registered : Str → Str → Bool → Bool → ProcessInfo D → Response D
  beaten : ℤ → Response D
  allowed : Bool → Response D
  trees : List TreeView → Response D
  tree : TreeView → List (ProcessInfo D) → Response D
  tree_killed : Str → Response D
