-- ===== src/Model.antt =====
-- internal/model/model.go: the data of the memory tree.
use diff_mem.Prelude.{ℕ, ℤ, Bool, true, false, Option, List}
use diff_mem.Text.{Text}
use diff_mem.Dict.{Dict}

pub data Status : Type 0 where
  active archived : Status

abbrev pub is_archived : Status → Bool
is_archived active = false
is_archived archived = true

abbrev pub is_active : Status → Bool
is_active active = true
is_active archived = false

-- Instants of `time.Time`, as nanoseconds.
abbrev pub Time : Type 0
Time = ℕ

-- `Fields` is a Go map: `nil_fields` says that it is the nil map, which reads as empty and cannot be
-- assigned to.
pub record Header : Type 0 where
  pub path : Text
  pub title : Text
  pub status : Status
  pub tags : List Text
  pub summary : Text
  pub fields : Dict Text
  pub nil_fields : Bool
  pub created_at : Time
  pub updated_at : Time
  pub event_count : ℕ
  pub last_accessed : Option Time

-- The values that the program gives to `Event.Type`.
pub data EventType : Type 0 where
  create user field_change summary_update archived restored : EventType

pub record Event : Type 0 where
  pub id : Text
  pub type : EventType
  pub content : Text
  pub meta : Dict Text
  pub timestamp : Time

pub record Node : Type 0 where
  pub header : Header
  pub open header use *
  pub events : List Event

-- The codes that the program gives to `ErrorInfo.Code`.
pub data Code : Type 0 where
  validation_failed path_exists path_not_found node_archived node_already_archived : Code
  node_not_archived summary_mismatch summary_drift_detected link_target_invalid : Code
  link_target_not_found linked_by_others transaction_failed unknown_tool invalid_params : Code

pub record ErrorInfo : Type 0 where
  pub code : Code
  pub message : Text
  pub suggestion : Text

pub data EntryType : Type 0 where
  node group : EntryType

pub record SearchResultEntry : Type 0 where
  pub path : Text
  pub type : EntryType
  pub summary : Text
  pub status : Option Status
  pub tags : List Text
  pub count : ℕ

pub record ShowResult : Type 0 where
  pub header : Header
  pub links : List Text
  pub backlinks : List Text

pub record DeepLoadResult : Type 0 where
  pub path : Text
  pub events : List Event
  pub total : ℕ
  pub has_more : Bool
  pub links : List Text

-- `ToolResponse.Result` is `interface{}`: one constructor for each value that the engine puts there.
pub data Payload : Type 0 where
  header_of : Header → Payload
  event_of : Event → Payload
  fields_of : Dict Text → Payload
  shown : ShowResult → Payload
  loaded : DeepLoadResult → Payload
  listing : (path : Text) (children : List SearchResultEntry) (has_more : Bool) → Payload
  hits : (results : List SearchResultEntry) (total : ℕ) → Payload
  deletion : (deleted : Text) (removed : List Text) (reason : Text) → Payload
  committed : (operations : ℕ) → Payload

pub record ToolResponse : Type 0 where
  pub success : Bool
  pub result : Option Payload
  pub warning : Text
  pub error : Option ErrorInfo

pub record SearchOptions : Type 0 where
  pub tags : List Text
  pub keywords : Text
  pub limit : ℤ
  pub include_archived : Bool

pub record CreateOptions : Type 0 where
  pub path : Text
  pub title : Text
  pub summary : Text
  pub tags : List Text
  pub initial_events : List Text
  pub reason : Text

pub record UpdateSummaryOptions : Type 0 where
  pub path : Text
  pub old_summary : Text
  pub new_summary : Text
  pub reason : Text

pub record ArchiveOptions : Type 0 where
  pub path : Text
  pub reason : Text

pub record UpdateFieldOptions : Type 0 where
  pub path : Text
  pub field : Text
  pub value : Text
  pub reason : Text

pub record UpdateOptions : Type 0 where
  pub path : Text
  pub fields : Dict Text
  pub field_reason : Text
  pub old_summary : Text
  pub new_summary : Text
  pub summary_reason : Text

pub record AppendOptions : Type 0 where
  pub path : Text
  pub event : Text
  pub reason : Text
