-- ===== src/Capability.antt =====
-- frontend/src/components/ide/schemaEditCapability.ts and generateStatementCapability.ts: which changes
-- of a schema the editor offers, and which statements it generates.
use sqlwarden.Common.{
  Bool, true, false, not, List, [], ◌∷◌, Option, none, some, String, if◌then◌else◌, ◌==◌, string_eq,
  includes, find, filter, Eq, ◌≡◌, ◌↔◌, arith, eq_iff,
}

-- frontend/src/lib/api/types.ts
pub data SchemaEditOperation : Type 0 where
  create_table drop_object drop_scope rename_column drop_column drop_index : SchemaEditOperation

abbrev edit_beq : SchemaEditOperation → SchemaEditOperation → Bool
edit_beq create_table create_table = true
edit_beq drop_object drop_object = true
edit_beq drop_scope drop_scope = true
edit_beq rename_column rename_column = true
edit_beq drop_column drop_column = true
edit_beq drop_index drop_index = true
edit_beq a b = false

pub edit_beq_iff : (a b : SchemaEditOperation) → (edit_beq a b ≡ true) ↔ (a ≡ b)
edit_beq_iff a b = ground arith

instance abbrev pub edit_eq : Eq SchemaEditOperation
edit_eq = record { test = edit_beq; test_iff = edit_beq_iff }

pub data StatementOperation : Type 0 where
  select insert update delete : StatementOperation

abbrev statement_beq : StatementOperation → StatementOperation → Bool
statement_beq select select = true
statement_beq insert insert = true
statement_beq update update = true
statement_beq delete delete = true
statement_beq a b = false

pub statement_beq_iff : (a b : StatementOperation) → (statement_beq a b ≡ true) ↔ (a ≡ b)
statement_beq_iff a b = ground arith

instance abbrev pub statement_eq : Eq StatementOperation
statement_eq = record { test = statement_beq; test_iff = statement_beq_iff }

pub record SchemaEditSpec : Type 0 where
  pub operations : List SchemaEditOperation
  pub column_types : List String
  pub creatable_table_scope_kinds : List String
  pub droppable_object_kinds : List String
  pub droppable_scope_kinds : List String
  pub supports_cascade : Bool

pub record StatementObjectSpec : Type 0 where
  pub kind : String
  pub operations : List StatementOperation

pub data SchemaEditGate : Type 0 where
  allowed : SchemaEditGate
  refused : String → SchemaEditGate

abbrev pub not_supported : SchemaEditGate
not_supported = refused "This driver does not support this change."

abbrev pub not_connected : SchemaEditGate
not_connected = refused "Connect to the database to make this change."

abbrev pub not_permitted : SchemaEditGate
not_permitted = refused "You do not have permission to change this schema."

-- `!sessionId`: the empty id counts as missing.
unfoldable pub is_connected : Option String → Bool
is_connected none = false
is_connected (some id) = not (id == "")

-- The gates that all operations share, and then the operation's own test of the specification, which
-- the shared gates have found to be there.
unfoldable pub base_gate :
    Option SchemaEditSpec → Option String → Bool → SchemaEditOperation → Option SchemaEditGate
base_gate none session_id can_mutate operation = some not_supported
base_gate (some editor) session_id can_mutate operation =
    if not (includes editor.operations operation)
    then some not_supported
    else if not (is_connected session_id)
    then some not_connected
    else if not can_mutate
    then some not_permitted
    else none

unfoldable pub scope_kinds : (SchemaEditSpec → List String) → Option SchemaEditSpec → List String
scope_kinds kinds none = []
scope_kinds kinds (some editor) = kinds editor

unfoldable pub can_create_table :
    Option SchemaEditSpec → Option String → Bool → String → SchemaEditGate
can_create_table editor session_id can_mutate scope_kind =
    elim (base_gate editor session_id can_mutate create_table) [
      | some gate ↦ gate
      | none ↦
          if not (includes (scope_kinds (λ e. e.creatable_table_scope_kinds) editor) scope_kind)
          then not_supported
          else allowed
    ]

unfoldable pub can_drop_scope :
    Option SchemaEditSpec → Option String → Bool → String → SchemaEditGate
can_drop_scope editor session_id can_mutate scope_kind =
    elim (base_gate editor session_id can_mutate drop_scope) [
      | some gate ↦ gate
      | none ↦
          if not (includes (scope_kinds (λ e. e.droppable_scope_kinds) editor) scope_kind)
          then not_supported
          else allowed
    ]

unfoldable pub can_drop_object :
    Option SchemaEditSpec → Option String → Bool → String → SchemaEditGate
can_drop_object editor session_id can_mutate object_kind =
    elim (base_gate editor session_id can_mutate drop_object) [
      | some gate ↦ gate
      | none ↦
          if not (includes (scope_kinds (λ e. e.droppable_object_kinds) editor) object_kind)
          then not_supported
          else allowed
    ]

unfoldable pub table_only_gate :
    Option SchemaEditSpec → Option String → Bool → String → SchemaEditOperation → SchemaEditGate
table_only_gate editor session_id can_mutate object_kind operation =
    elim (base_gate editor session_id can_mutate operation) [
      | some gate ↦ gate
      | none ↦ if not (object_kind == "table") then not_supported else allowed
    ]

unfoldable pub can_rename_column :
    Option SchemaEditSpec → Option String → Bool → String → SchemaEditGate
can_rename_column editor session_id can_mutate object_kind =
    table_only_gate editor session_id can_mutate object_kind rename_column

unfoldable pub can_drop_column :
    Option SchemaEditSpec → Option String → Bool → String → SchemaEditGate
can_drop_column editor session_id can_mutate object_kind =
    table_only_gate editor session_id can_mutate object_kind drop_column

unfoldable pub can_drop_index :
    Option SchemaEditSpec → Option String → Bool → String → SchemaEditGate
can_drop_index editor session_id can_mutate object_kind =
    table_only_gate editor session_id can_mutate object_kind drop_index

pub data CascadeTarget : Type 0 where
  scope object column index : CascadeTarget

unfoldable pub cascade_available : Option SchemaEditSpec → CascadeTarget → Bool
cascade_available editor index = false
cascade_available none scope = false
cascade_available none object = false
cascade_available none column = false
cascade_available (some editor) scope = editor.supports_cascade
cascade_available (some editor) object = editor.supports_cascade
cascade_available (some editor) column = editor.supports_cascade

abbrev pub statement_operation_order : List StatementOperation
statement_operation_order = select ∷ insert ∷ update ∷ delete ∷ []

-- `spec?.objects?` is the list, empty if there is none.
unfoldable pub statement_operations_for :
    List StatementObjectSpec → String → List StatementOperation
statement_operations_for objects kind = elim (find (λ spec. spec.kind == kind) objects) [
  | none ↦ []
  | some spec ↦ elim spec.operations [
    | [] ↦ []
    | _ ∷ _ ↦ filter (λ operation. includes spec.operations operation) statement_operation_order
  ]
]

-- The kinds on which the specification, or the code for operations on tables, allows an operation.
abbrev pub kinds_for : SchemaEditSpec → SchemaEditOperation → List String
kinds_for editor create_table = editor.creatable_table_scope_kinds
kinds_for editor drop_object = editor.droppable_object_kinds
kinds_for editor drop_scope = editor.droppable_scope_kinds
kinds_for editor rename_column = "table" ∷ []
kinds_for editor drop_column = "table" ∷ []
kinds_for editor drop_index = "table" ∷ []

-- The function that answers for an operation.
abbrev pub gate_for :
    SchemaEditOperation → Option SchemaEditSpec → Option String → Bool → String → SchemaEditGate
gate_for create_table = can_create_table
gate_for drop_object = can_drop_object
gate_for drop_scope = can_drop_scope
gate_for rename_column = can_rename_column
gate_for drop_column = can_drop_column
gate_for drop_index = can_drop_index

-- Where the driver describes its editing, a change is offered exactly if the driver lists the operation and
-- the kind of the target for it, columns and indexes being those of tables only, and if there is a session
-- and the user may change the schema.
pub gate_for-allowed :
    (operation : SchemaEditOperation) (editor : SchemaEditSpec) (session_id : Option String)
    (can_mutate : Bool) (kind : String)
    → (gate_for operation (some editor) session_id can_mutate kind ≡ allowed) ↔ (
        (includes editor.operations operation ≡ true)
        × (is_connected session_id ≡ true)
        × (can_mutate ≡ true)
        × (includes (kinds_for editor operation) kind ≡ true))
unfolding base_gate table_only_gate can_create_table can_drop_scope can_drop_object
    can_rename_column can_drop_column can_drop_index scope_kinds
gate_for-allowed create_table editor session_id can_mutate kind = ground arith
gate_for-allowed drop_object editor session_id can_mutate kind = ground arith
gate_for-allowed drop_scope editor session_id can_mutate kind = ground arith
gate_for-allowed rename_column editor session_id can_mutate kind =
    ground (arith, eq_iff kind "table", eq_iff "table" kind)
gate_for-allowed drop_column editor session_id can_mutate kind =
    ground (arith, eq_iff kind "table", eq_iff "table" kind)
gate_for-allowed drop_index editor session_id can_mutate kind =
    ground (arith, eq_iff kind "table", eq_iff "table" kind)
