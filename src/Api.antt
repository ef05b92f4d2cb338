-- ===== src/Api.antt =====
-- frontend/src/lib/api/types.ts: the records of the API that the editor stores.
use sqlwarden.Common.{ℕ, Bool, List, Option, String}

pub data ColumnType : Type 0 where
  text integer decimal boolean datetime json uuid bytes : ColumnType

pub record ResultColumn : Type 0 where
  pub name : String
  pub column_type : ColumnType
  pub raw_type : String
  pub nullable : Bool

pub data ValueType : Type 0 where
  null text integer float decimal bool time bytes : ValueType

-- `integer` and `float` hold the printed number: nothing computes with them.
pub record ResultValue : Type 0 where
  pub value_type : ValueType
  pub text : Option String
  pub integer : Option String
  pub float : Option String
  pub decimal : Option String
  pub bool : Option Bool
  pub time : Option String
  pub bytes : Option (List ℕ)

abbrev pub ResultRow : Type 0
ResultRow = List ResultValue

pub record ResultSet : Type 0 where
  pub columns : Option (List ResultColumn)
  pub rows : Option (List ResultRow)
  pub rows_affected : Option ℕ
  pub duration_ms : ℕ
  pub truncated : Bool
  pub rows_returned : ℕ
  pub bytes_returned : ℕ
  pub truncation_reason : Option String
  pub query_cursor_id : Option String
  pub exhausted : Option Bool
  pub page_size : Option ℕ

pub record UnsafeStatement : Type 0 where
  pub kind : String
  pub start_offset : ℕ
  pub end_offset : ℕ

pub record ScopeSegment : Type 0 where
  pub kind : String
  pub name : String

abbrev pub ScopePath : Type 0
ScopePath = List ScopeSegment

pub record ObjectRef : Type 0 where
  pub scope : ScopePath
  pub kind : String
  pub name : String

pub record Relationship : Type 0 where
  pub name : String
  pub source : ObjectRef
  pub columns : List String
  pub references : ObjectRef
  pub referenced_columns : List String

pub record DbColumn : Type 0 where
  pub name : String
  pub data_type : String
  pub nullable : Bool
  pub default_value : Option String
  pub ordinal : ℕ

pub record DbForeignKey : Type 0 where
  pub name : String
  pub columns : List String
  pub references : ObjectRef
  pub referenced_columns : List String

pub record DbIndex : Type 0 where
  pub name : String
  pub columns : List String
  pub unique : Bool

pub record RelationalDetail : Type 0 where
  pub columns : List DbColumn
  pub primary_key : Option (List String)
  pub foreign_keys : Option (List DbForeignKey)
  pub indexes : Option (List DbIndex)

-- frontend/src/components/ide/schema-diagram/diagramTab.ts
pub data DiagramTarget : Type 0 where
  scope_target : ScopePath → DiagramTarget
  object_target : ObjectRef → DiagramTarget
