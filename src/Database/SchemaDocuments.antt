-- ===== src/Database/SchemaDocuments.antt =====
-- backend/isched_DatabaseManager.cpp: the schema documents of a tenant, as one connection sees them. A
-- transaction that a failed COMMIT leaves open stays with the connection.
use isched.Common.{
  ◌≡◌, refl, Bool, not, ◌&&◌, ◌||◌, List, [], ◌∷◌, Option, none, some, Text, text_eq, text_beq_iff,
  ◌==◌, nat_eq, if◌then◌else◌, is_some, arith, Option-cases, inl, inr,
}
use isched.Database.Answers.{
  DatabaseError, DatabaseResult, failed, value, Void, done, Statement, Listing, query_failed,
  not_found, transaction_failed, CommitOutcome, commits, stays_open, rolled_back,
}
use isched.Database.Tables.{first, matches, update, order_by, first-update, first-holds, map_found}
use isched.Database.Statements.{text_leb, runs, is_done, insert_row, list_rows}

pub record SchemaDocumentRecord : Type 0 where
  pub name : Text
  pub content : Text
  pub content_sha256 : Text
  pub created_at : Text
  pub updated_at : Text
  pub updated_by : Text

pub record DocumentStore : Type 0 where
  pub saved : List SchemaDocumentRecord
  pub pending : Option (List SchemaDocumentRecord)

abbrev pub has_name : Text → SchemaDocumentRecord → Bool
has_name name r = r.name == name

abbrev pub visible : DocumentStore → List SchemaDocumentRecord
visible s = elim s.pending [ none ↦ s.saved | some rows ↦ rows ]

abbrev write :
    DocumentStore
    → DatabaseResult Void × List SchemaDocumentRecord
    → DatabaseResult Void × DocumentStore
write s (answer, rows) = elim s.pending [
  | none ↦ (answer, record s { saved = rows })
  | some _ ↦ (answer, record s { pending = some rows })
]

-- `ends` is whether SQLite has also rolled the open transaction back where the step fails.
unfoldable pub insert_schema_document :
    Option DatabaseError
    → Statement
    → Bool
    → Text
    → Text
    → Text
    → Text
    → Text
    → DocumentStore
    → DatabaseResult Void × DocumentStore
insert_schema_document (some e) insertion ends now name content sha updated_by s = (failed e, s)
insert_schema_document none insertion ends now name content sha updated_by s =
    if insertion.prepares && not insertion.steps
    then (failed query_failed, if ends then record s { pending = none } else s)
    else write s (
        insert_row none insertion (is_some (first (has_name name) (visible s)))
          (record {
            name = name;
            content = content;
            content_sha256 = sha;
            created_at = now;
            updated_at = now;
            updated_by = updated_by;
          })
          (visible s))

abbrev pub replaced : Text → Text → Text → Text → SchemaDocumentRecord → SchemaDocumentRecord
replaced now content sha updated_by r = record r {
  content = content;
  content_sha256 = sha;
  updated_at = now;
  updated_by = updated_by;
}

-- A transaction after its ROLLBACK, whose answer the source ignores: `ends` is whether none is open then.
unfoldable pub left_open : Bool → DocumentStore → DocumentStore
left_open ends s = if ends then s else record s { pending = some s.saved }

-- BEGIN IMMEDIATE fails within a transaction, and `begins` is whether it does otherwise.
unfoldable pub replace_schema_document :
    Option DatabaseError
    → Bool
    → Statement
    → Bool
    → CommitOutcome
    → Text
    → Text
    → Text
    → Text
    → Text
    → DocumentStore
    → DatabaseResult Void × DocumentStore
replace_schema_document (some e) begins change ends outcome now name content sha updated_by s =
    (failed e, s)
replace_schema_document none begins change ends outcome now name content sha updated_by s =
    if not begins || is_some s.pending
    then (failed transaction_failed, s)
    else if not (runs change)
    then (failed query_failed, left_open ends s)
    else if matches (has_name name) s.saved == 0
    then (failed not_found, left_open ends s)
    else let rows = update (has_name name) (replaced now content sha updated_by) s.saved in
      elim outcome [
        | commits ↦ (value done, record s { saved = rows })
        | stays_open ↦ (failed transaction_failed, record s { pending = some rows })
        | rolled_back ↦ (failed transaction_failed, s)
      ]

-- The list leaves the contents and their digests out.
unfoldable pub without_contents : List SchemaDocumentRecord → List SchemaDocumentRecord
without_contents [] = []
without_contents (r ∷ rs) = record r { content = []; content_sha256 = [] } ∷ without_contents rs

unfoldable pub list_schema_documents :
    Option DatabaseError → Listing → DocumentStore → DatabaseResult (List SchemaDocumentRecord)
list_schema_documents access listing s =
    list_rows access listing
      (without_contents (order_by (λ a b. text_leb a.name b.name) (visible s)))

unfoldable pub get_schema_document_by_name :
    Option DatabaseError → Statement → Text → DocumentStore → DatabaseResult SchemaDocumentRecord
get_schema_document_by_name (some e) selection name s = failed e
get_schema_document_by_name none selection name s =
    if not (runs selection)
    then failed query_failed
    else elim (first (has_name name) (visible s)) [ none ↦ failed not_found | some r ↦ value r ]

replaced-first :
    (now name content sha updated_by q : Text) (rows : List SchemaDocumentRecord)
    → first (has_name q) (update (has_name name) (replaced now content sha updated_by) rows) ≡ (
        if q == name
        then map_found (replaced now content sha updated_by) (first (has_name q) rows)
        else first (has_name q) rows)
replaced-first now name content sha updated_by q rows =
    let updated =
      first-update (has_name q) (has_name name) (replaced now content sha updated_by) rows
        (λ r. refl) in
    elim (Option-cases (first (has_name q) rows)) [
      | inl e ↦ ground (arith, e, updated)
      | inr (r, e) ↦ ground (
        arith,
        e,
        updated,
        first-holds (has_name q) rows r e,
        text_beq_iff r.name q,
        text_beq_iff q name,
        text_beq_iff r.name name,
      )
    ]

-- What a replacement leaves stored under every name, on every branch: with success the document has the
-- new content and keeps the time of its creation, and everything else, or without success all, is as
-- it was.
pub replace_schema_document-stored :
    (access : Option DatabaseError) (begins : Bool) (change : Statement) (ends : Bool)
    (outcome : CommitOutcome) (now name content sha updated_by q : Text) (s : DocumentStore)
    → first
        (has_name q)
        (replace_schema_document access begins change ends outcome now name content sha updated_by
          s).1.saved
      ≡ (if is_done
              (replace_schema_document access begins change ends outcome now name content sha
                updated_by s).0
            && q == name
          then map_found (replaced now content sha updated_by) (first (has_name q) s.saved)
          else first (has_name q) s.saved)
unfolding replace_schema_document left_open
replace_schema_document-stored (some e) begins change ends outcome now name content sha updated_by q
      s =
    refl
replace_schema_document-stored none begins change ends outcome now name content sha updated_by q s =
    ground (arith, replaced-first now name content sha updated_by q s.saved)
