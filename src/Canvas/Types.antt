-- ===== src/Canvas/Types.antt =====
-- Rows of src/modules/canvas/entities, the requests of dto/canvas.dto.ts, and what the service hands
-- to the audit log and to the realtime service.
use manbaa_backend.Base.{ℕ, String, Bool, Option, List}
use manbaa_backend.Json.{Json, Number}

-- entities/canvas.entity.ts, without its size and colour and the time stamps.
pub record Canvas : Type 0 where
  pub id : String
  pub workflow_id : String
  pub workspace_id : Option String
  pub revision : ℕ

pub record CanvasObject : Type 0 where
  pub id : String
  pub canvas_id : String
  pub kind : String
  pub elsa_type : Option String
  pub label : Option String
  pub properties : Json
  pub position_x : Number
  pub position_y : Number
  pub width : Option Number
  pub height : Option Number
  pub style : Option Json
  pub is_locked : Bool
  pub created_by : String

pub record CanvasOperation : Type 0 where
  pub id : String
  pub canvas_id : String
  pub organization_id : Option String
  pub workspace_id : Option String
  pub canvas_object_id : Option String
  pub user_id : String
  pub op_type : String
  pub op_payload : Json
  pub version_vector : Option Json
  pub sequence_number : ℕ
  pub client_revision : Option ℕ

-- What the service reads and writes of a row of `workflow`.
pub record Workflow : Type 0 where
  pub id : String
  pub org_id : String
  pub owner_id : String
  pub current_version : ℕ

pub record WorkflowVersion : Type 0 where
  pub id : String
  pub workflow_id : String
  pub version_number : ℕ
  pub elements_json : Json
  pub created_by : String

-- What `buildSnapshotData` copies of an object.
pub record SnapshotObject : Type 0 where
  pub id : String
  pub kind : String
  pub elsa_type : Option String
  pub label : Option String
  pub properties : Json
  pub position_x : Number
  pub position_y : Number
  pub width : Option Number
  pub height : Option Number
  pub style : Option Json
  pub is_locked : Bool

pub record CanvasSnapshot : Type 0 where
  pub id : String
  pub canvas_id : String
  pub snapshot_data : List SnapshotObject
  pub created_by : String
  pub trigger : String

pub record CanvasVersion : Type 0 where
  pub id : String
  pub canvas_id : String
  pub workflow_version_id : String
  pub snapshot_id : String
  pub label : Option String
  pub created_by : String

pub record CreateCanvasObjectDto : Type 0 where
  pub kind : String
  pub elsa_type : Option String
  pub label : Option String
  pub properties : Option Json
  pub position_x : Number
  pub position_y : Number
  pub width : Option Number
  pub height : Option Number
  pub style : Option Json

pub record UpdateCanvasObjectDto : Type 0 where
  pub label : Option String
  pub elsa_type : Option String
  pub properties : Option Json
  pub position_x : Option Number
  pub position_y : Option Number
  pub width : Option Number
  pub height : Option Number
  pub style : Option Json

pub record MoveCanvasObjectDto : Type 0 where
  pub position_x : Number
  pub position_y : Number

pub record CreateCanvasOperationDto : Type 0 where
  pub operation_id : String
  pub client_revision : ℕ
  pub canvas_object_id : Option String
  pub op_type : String
  pub op_payload : Json
  pub version_vector : Option Json

-- The event types of the audit entries.
pub data AuditEvent : Type 0 where
  canvas_created canvas_object_created canvas_object_updated canvas_object_moved : AuditEvent
  canvas_object_deleted canvas_snapshot_created canvas_committed : AuditEvent

-- Calls of other services: the audit log with the workflow, the actor and the element, and the realtime
-- messages.
pub data Effect : Type 0 where
  audit : String → Option String → AuditEvent → String → Effect
  broadcast_object_created broadcast_object_updated broadcast_object_moved :
      String → String → CanvasObject → Effect
  broadcast_object_deleted : String → String → String → Effect
  -- organisation, workspace, canvas, operation, actor, revision
  broadcast_operation_accepted : String → String → String → String → String → ℕ → Effect
  -- the same, with the client's and the current revision
  broadcast_operation_rejected : String → String → String → String → String → ℕ → ℕ → Effect
  broadcast_canvas_committed : String → String → CanvasVersion → String → ℕ → Effect
