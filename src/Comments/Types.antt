-- ===== src/Comments/Types.antt =====
-- Rows and requests of src/modules/comments.
use manbaa_backend.Base.{ℕ, String, Bool, Option, List}
use manbaa_backend.Json.{Json, Fields}

-- entities/comment.entity.ts; the type is the text of a `CommentType`.
pub record Comment : Type 0 where
  pub id : String
  pub workflow_id : String
  pub element_id : Option String
  pub author_id : String
  pub kind : String
  pub content : String
  pub resolved : Bool
  pub resolved_at : Option ℕ
  pub resolved_by : Option String
  pub resolution_note : Option String
  pub parent_id : Option String
  pub assigned_to : Option String

pub record CreateCommentDto : Type 0 where
  pub element_id : Option String
  pub kind : String
  pub content : String

-- What the service reads of a row of `workflow` and of `user`.
pub record Workflow : Type 0 where
  pub id : String
  pub org_id : String

pub record User : Type 0 where
  pub id : String
  pub org_id : String

-- An element, as the service types it, with its other properties.
pub record Element : Type 0 where
  pub id : String
  pub archived : Bool
  pub approved : Bool
  pub approved_by : Option String
  pub approved_at : Option ℕ
  pub others : Fields

-- The column `elements_json`: `null`, an array, or a value that is no array.
pub data Elements : Type 0 where
  no_elements : Elements
  listed : List Element → Elements
  not_listed : Json → Elements

pub record WorkflowVersion : Type 0 where
  pub id : String
  pub workflow_id : String
  pub version_number : ℕ
  pub elements_json : Elements

pub data CommentEvent : Type 0 where
  comment_created comment_updated comment_deleted comment_reply_created comment_resolved :
      CommentEvent
  comment_assigned element_approved elements_bulk_approved : CommentEvent

-- The audit log with the workflow, the actor, the event and the element, and the message to an assignee.
pub data Effect : Type 0 where
  audit : String → String → CommentEvent → Option String → Effect
  review_request : String → String → String → Effect
