-- ===== src/Trace.antt =====
-- Trace links between work products (internal/project/trace.go).
pub mod Impact
pub mod Marks
pub mod Tests
use delmos.Base.{
  ℕ, zero, suc, ◌+◌, String, Bool, true, false, not, ◌&&◌, Option, none, some, List, [], ◌∷◌, ◌++◌,
  map, Result, ok, err, ◌>>=◌, ◌>>◌, fail_if, need, Dict, str_eq, contains, length, keep, ltb, ◌==◌,
  if◌then◌else◌, find, update_where, any,
}
use delmos.Automation.Value.{Value, text}
use delmos.Review.Tables.{
  WorkProduct, WorkProductRevision, Tables, AuditEvent, Call, WorkError, enforce, audit_row, emit,
}
use delmos.Review.Works.{Codec}

-- The errors of the file. `trace_refused` is a violation that EnforceRules returns.
pub data TraceError : Type 0 where
  trace_link_not_found invalid_trace_relation trace_endpoint_invalid trace_link_already_exists :
      TraceError
  trace_refused : WorkError → TraceError

-- `traceRelationKinds`
abbrev pub trace_relation_kinds : List String
trace_relation_kinds = "verifies" ∷ "satisfies" ∷ "refines" ∷ "derives_from" ∷ []

-- `TraceLink`, a row of core.trace_links.
pub record TraceLink : Type 0 where
  pub id : ℕ
  pub project_id : ℕ
  pub source_id : ℕ
  pub source_revision_id : Option ℕ
  pub target_id : ℕ
  pub target_revision_id : Option ℕ
  pub relation_kind : String
  pub is_suspect : Bool

pub record TraceTables : Type 0 where
  pub core : Tables
  pub links : List TraceLink

abbrev pub belongs_to : ℕ → ℕ → List WorkProductRevision → Result TraceError (Unit {0})
belongs_to work_product_id revision_id revisions =
    need trace_endpoint_invalid (find (λ v. v.id) revision_id revisions)
    >>= (λ v. fail_if (not (v.work_product_id == work_product_id)) trace_endpoint_invalid)

abbrev pub revision_valid : ℕ → Option ℕ → List WorkProductRevision → Result TraceError (Unit {0})
revision_valid work_product_id none revisions = ok tt
revision_valid work_product_id (some r) revisions = belongs_to work_product_id r revisions

-- `validateTraceEndpoint`
unfoldable pub validate_trace_endpoint : ℕ → ℕ → Option ℕ → Tables → Result TraceError (Unit {0})
validate_trace_endpoint project_id work_product_id revision_id t =
    need trace_endpoint_invalid (find (λ w. w.id) work_product_id t.works) >>= (λ w.
      fail_if (not (w.project_id == project_id)) trace_endpoint_invalid
      >> revision_valid work_product_id revision_id t.revisions)

abbrev pub permitted : Result WorkError (List AuditEvent) → Result TraceError (List AuditEvent)
permitted (ok notes) = ok notes
permitted (err e) = err (trace_refused e)

-- UNIQUE (project_id, source_id, target_id, relation_kind)
abbrev pub same_link : TraceLink → TraceLink → Bool
same_link l m =
    l.project_id == m.project_id
    && l.source_id == m.source_id
    && l.target_id == m.target_id
    && str_eq l.relation_kind m.relation_kind

abbrev pub create_fields : Codec → TraceLink → Dict Value
create_fields k l =
    ("action", text "trace.create")
    ∷ ("source_id", text (k.uuid l.source_id))
    ∷ ("target_id", text (k.uuid l.target_id))
    ∷ ("relation_kind", text l.relation_kind)
    ∷ []

abbrev pub created_payload : Codec → TraceLink → Dict Value
created_payload k l =
    ("trace_link_id", text (k.uuid l.id))
    ∷ ("source_id", text (k.uuid l.source_id))
    ∷ ("target_id", text (k.uuid l.target_id))
    ∷ ("relation_kind", text l.relation_kind)
    ∷ []

abbrev pub insert_link :
    Codec
    → Call
    → TraceTables
    → TraceLink
    → List AuditEvent
    → Result TraceError (TraceTables × TraceLink)
insert_link k c t l notes =
    fail_if (any (same_link l) t.links) trace_link_already_exists
    >> ok (
      record t {
        links = t.links ++ l ∷ [];
        core = record t.core {
          audit =
              t.core.audit
              ++ notes
              ++ audit_row c "trace.create" (
                  ("trace_link_id", text (k.uuid l.id))
                  ∷ ("relation_kind", text l.relation_kind)
                  ∷ [])
                ∷ [];
          queue = emit c 1 "trace.link_created" (created_payload k l) t.core;
        };
      },
      l,
    )

-- The row to insert: is_suspect has the default of its column.
abbrev pub new_link : Call → ℕ → ℕ → Option ℕ → Option ℕ → String → TraceTables → TraceLink
new_link c source_id target_id source_revision_id target_revision_id relation_kind t = record {
  id = t.core.queue.next_id;
  project_id = c.project_id;
  source_id = source_id;
  source_revision_id = source_revision_id;
  target_id = target_id;
  target_revision_id = target_revision_id;
  relation_kind = relation_kind;
  is_suspect = false;
}

-- `CreateTraceLink`
unfoldable pub create_trace_link :
    Codec
    → Call
    → ℕ
    → ℕ
    → Option ℕ
    → Option ℕ
    → String
    → TraceTables
    → Result TraceError (TraceTables × TraceLink)
unfolding validate_trace_endpoint
create_trace_link k c source_id target_id source_revision_id target_revision_id relation_kind t =
    let l = new_link c source_id target_id source_revision_id target_revision_id relation_kind t in
    fail_if (not (contains relation_kind trace_relation_kinds)) invalid_trace_relation
    >> (validate_trace_endpoint c.project_id source_id source_revision_id t.core
        >> (validate_trace_endpoint c.project_id target_id target_revision_id t.core
            >> (permitted (
                  enforce k.explain c "trigger.core.before_trace_create" (create_fields k l) t.core)
                >>= insert_link k c t l)))

-- A row of the recursive query `impact`.
pub record ImpactRow : Type 0 where
  pub id : ℕ
  pub source_id : ℕ
  pub path : List ℕ
  pub is_cycle : Bool

abbrev pub on_path : ℕ → List ℕ → Bool
on_path n path = any (λ x. x == n) path

abbrev pub first_row : TraceLink → ImpactRow
first_row l = record {
  id = l.id;
  source_id = l.source_id;
  path = l.target_id ∷ [];
  is_cycle = false;
}

abbrev pub next_row : ImpactRow → TraceLink → ImpactRow
next_row parent child = record {
  id = child.id;
  source_id = child.source_id;
  path = parent.path ++ child.target_id ∷ [];
  is_cycle = on_path child.target_id parent.path;
}

abbrev pub starts_at : ℕ → ℕ → TraceLink → Bool
starts_at project_id work_product_id l =
    l.project_id == project_id && l.target_id == work_product_id

abbrev pub joins : ℕ → ImpactRow → TraceLink → Bool
joins project_id parent child =
    child.target_id == parent.source_id
    && child.project_id == project_id
    && ltb (length parent.path) 100
    && not parent.is_cycle

abbrev pub next_rows : ℕ → List TraceLink → List ImpactRow → List ImpactRow
next_rows project_id links [] = []
next_rows project_id links (r ∷ rs) =
    map (next_row r) (keep (joins project_id r) links) ++ next_rows project_id links rs

-- The rounds of the recursion: each joins the rows of the round before, until there are none.
unfoldable pub rounds : ℕ → ℕ → List TraceLink → List ImpactRow → List ImpactRow
rounds zero project_id links rows = rows
rounds (suc n) project_id links rows =
    rows ++ rounds n project_id links (next_rows project_id links rows)

abbrev pub first_rows : ℕ → ℕ → List TraceLink → List ImpactRow
first_rows project_id work_product_id links =
    map first_row (keep (starts_at project_id work_product_id) links)

-- No path is longer than a hundred.
unfoldable pub impact : ℕ → ℕ → List TraceLink → List ImpactRow
unfolding rounds
impact project_id work_product_id links =
    rounds 100 project_id links (first_rows project_id work_product_id links)

abbrev pub is_impacted : ℕ → List ImpactRow → TraceLink → Bool
is_impacted project_id rows l = l.project_id == project_id && any (λ r. r.id == l.id) rows

abbrev pub suspect : TraceLink → TraceLink
suspect l = record l { is_suspect = true }

-- `propagateSuspect`: the table, and how many rows were updated.
unfoldable pub propagate_suspect : ℕ → ℕ → List TraceLink → List TraceLink × ℕ
unfolding impact
propagate_suspect project_id work_product_id links =
    let rows = impact project_id work_product_id links in
    (
      update_where (is_impacted project_id rows) suspect links,
      length (keep (is_impacted project_id rows) links),
    )

abbrev pub link_in_project : ℕ → Option TraceLink → Option TraceLink
link_in_project project_id none = none
link_in_project project_id (some l) = if l.project_id == project_id then some l else none

abbrev pub acknowledged : TraceLink → TraceLink
acknowledged l = record l { is_suspect = false }

abbrev pub clear_suspect : Codec → Call → ℕ → TraceTables → TraceLink → TraceTables
clear_suspect k c link_id t l =
    if l.is_suspect
    then record t {
      links = update_where (λ x. x.id == link_id) acknowledged t.links;
      core = record t.core {
        audit =
            t.core.audit
            ++ audit_row c "trace.acknowledge" (("trace_link_id", text (k.uuid link_id)) ∷ []) ∷ [];
      };
    }
    else t

-- `AcknowledgeTraceLink`: a link that is not suspect is left as it is.
unfoldable pub acknowledge_trace_link :
    Codec → Call → ℕ → TraceTables → Result TraceError TraceTables
acknowledge_trace_link k c link_id t =
    need trace_link_not_found (link_in_project c.project_id (find (λ l. l.id) link_id t.links))
    >>= (λ l. ok (clear_suspect k c link_id t l))
