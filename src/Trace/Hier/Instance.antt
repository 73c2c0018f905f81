-- ===== src/Trace/Hier/Instance.antt =====
-- The query for one instance: query/WhereIsQuery.cc.
use auto_waveform_debugger.Base.{
  ℕ, ◌++◌, Bool, not, ◌&&◌, Option, none, some, List, Str, codes, is_empty, if◌then◌else◌, ltb,
  ◌==◌,
}
use auto_waveform_debugger.Base.Dict
use auto_waveform_debugger.Trace.Number.{to_string}
use auto_waveform_debugger.Trace.Hier.{
  InstanceParameterKind, value, type, InstanceParameter, Hierarchy, OutputFormat,
  top_hierarchy_suggestions,
}

pub record WhereInstanceResult : Type 0 where
  pub instance_path : Str
  pub module_name : Str
  pub source_file : Str
  pub source_line : ℕ
  pub parameters : List InstanceParameter

pub record WhereInstanceOptions : Type 0 where
  pub instance_path : Str
  pub format : OutputFormat
  pub show_params : Bool

abbrev pub instance_parameter_kind_name : InstanceParameterKind → Str
instance_parameter_kind_name value = codes "value"
instance_parameter_kind_name type = codes "type"

-- The parts of a TraceDb that the query reads.
unfoldable pub lookup_where_instance : Hierarchy → Str → Option WhereInstanceResult
unfolding Dict.lookup
lookup_where_instance db path = elim (Dict.lookup path db) [
  | none ↦ none
  | some n ↦ some (record {
    instance_path = path;
    module_name = n.module_name;
    source_file = n.source_file;
    source_line = n.source_line;
    parameters = n.parameters;
  })
]

abbrev rebuild : ℕ → Str → Str
rebuild version what =
    codes "db version "
    ++ (to_string version
        ++ (codes " does not store " ++ (what ++ codes "; rebuild with current rtl_trace compile")))

unfoldable pub source_unavailable_reason : ℕ → WhereInstanceResult → Option Str
unfolding to_string
source_unavailable_reason version result =
    if not (is_empty result.source_file)
    then none
    else if not (version == 0) && ltb version 3
    then some (rebuild version (codes "hierarchy source metadata"))
    else some (codes "no source metadata recorded for this instance definition")

unfoldable pub params_unavailable_reason : ℕ → Option Str
unfolding to_string
params_unavailable_reason version =
    if not (version == 0) && ltb version 4
    then some (rebuild version (codes "instance parameter metadata"))
    else none

-- RunWhereInstanceWithSession, up to the printing of the result.
pub data WhereInstanceReply : Type 0 where
  no_hierarchy : WhereInstanceReply
  instance_not_found : Str → List Str → WhereInstanceReply
  found : WhereInstanceResult → WhereInstanceReply

unfoldable pub run_where_instance_with_session :
    Hierarchy → WhereInstanceOptions → WhereInstanceReply
unfolding lookup_where_instance top_hierarchy_suggestions
run_where_instance_with_session db opts =
    let missing =
      instance_not_found opts.instance_path (top_hierarchy_suggestions db opts.instance_path 5) in
    if is_empty db then no_hierarchy else elim (lookup_where_instance db opts.instance_path) [
      | none ↦ missing
      | some result ↦ found result
    ]
