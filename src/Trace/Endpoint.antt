-- ===== src/Trace/Endpoint.antt =====
-- The endpoint of a driver or load: EndpointRecord of db/GraphDbTypes.h, and the identity of an
-- endpoint in a query, EndpointKey of db/GraphDb.cc.
pub mod Key
use auto_waveform_debugger.Base.{
  ℕ, Bool, true, false, not, ◌&&◌, Option, none, some, List, [], ◌∷◌, ◌++◌, Str, codes, is_empty,
  length, get_elem?, if◌then◌else◌, str_eq, ◌==◌,
}
use auto_waveform_debugger.Trace.Number.{to_string}
use auto_waveform_debugger.Trace.Number.Integer.{ℤ, integer_text, same_integer}

pub data EndpointKind : Type 0 where
  port : EndpointKind
  expr : EndpointKind

pub record CompactPortRoute : Type 0 where
  pub owner_low : ℤ
  pub owner_high : ℤ
  pub target_low : ℤ
  pub target_path_id : ℕ
  pub target_path : Str
  pub target_signal_id : ℕ

pub record EndpointRecord : Type 0 where
  pub kind : EndpointKind
  pub path : Str
  pub file : Str
  pub path_id : ℕ
  pub file_id : ℕ
  pub line : ℤ
  pub direction : Str
  pub assignment_text : Str
  pub has_assignment_range : Bool
  pub assignment_start : ℕ
  pub assignment_end : ℕ
  pub bit_map : Str
  pub bit_map_approximate : Bool
  pub bit_map_logical_axes : Bool
  pub bit_map_merged : Bool
  pub legacy_fallback_native_merge : Bool
  pub port_query_coverage : List (ℤ × ℤ)
  pub compact_port_routes : List CompactPortRoute
  pub port_mapping_constant : Bool
  pub port_mapping_unresolved : Bool
  pub lhs_signal_ids : List ℕ
  pub rhs_signal_ids : List ℕ
  pub lhs_signals : List Str
  pub rhs_signals : List Str

-- The pools of a TraceDb.
pub record Pools : Type 0 where
  pub path_pool : List Str
  pub file_pool : List Str

abbrev pooled : Option Str → Str
pooled none = []
pooled (some s) = s

unfoldable pub endpoint_path : Pools → EndpointRecord → Str
endpoint_path db e = if is_empty e.path then pooled (get_elem? db.path_pool e.path_id) else e.path

unfoldable pub endpoint_file : Pools → EndpointRecord → Str
endpoint_file db e = if is_empty e.file then pooled (get_elem? db.file_pool e.file_id) else e.file

-- The lambda `field`: the length of the text, a colon and the text.
unfoldable pub field : Str → Str
unfolding to_string
field s = to_string (length s) ++ b':' ∷ s

abbrev pub flag_text : Bool → Str
flag_text true = codes "1"
flag_text false = codes "0"

abbrev pub kind_text : EndpointKind → Str
kind_text port = codes "0"
kind_text expr = codes "1"

-- The lambda `refs`.
abbrev pub refs : List Str → List Str
refs names = to_string (length names) ∷ names

-- The fields in their order.
unfoldable pub key_fields : Pools → EndpointRecord → List Str
unfolding to_string endpoint_path endpoint_file
key_fields db e =
    kind_text e.kind
    ∷ endpoint_path db e
    ∷ endpoint_file db e
    ∷ integer_text e.line
    ∷ e.direction
    ∷ flag_text e.has_assignment_range
    ∷ to_string e.assignment_start
    ∷ to_string e.assignment_end
    ∷ e.assignment_text
    ∷ e.bit_map
    ∷ flag_text e.bit_map_approximate
    ∷ flag_text e.bit_map_logical_axes
    ∷ flag_text e.port_mapping_constant
    ∷ flag_text e.port_mapping_unresolved
    ∷ (refs e.lhs_signals ++ refs e.rhs_signals)

unfoldable pub join_fields : List Str → Str
unfolding field
join_fields [] = []
join_fields (s ∷ fields) = field s ++ join_fields fields

unfoldable pub endpoint_key : Pools → EndpointRecord → Str
unfolding key_fields join_fields
endpoint_key db e = join_fields (key_fields db e)

abbrev pub same_kind : EndpointKind → EndpointKind → Bool
same_kind port port = true
same_kind expr expr = true
same_kind a b = false

abbrev pub same_bool : Bool → Bool → Bool
same_bool true b = b
same_bool false b = not b

abbrev pub same_list : {A : Type 0} → (A → A → Bool) → List A → List A → Bool
same_list same [] [] = true
same_list same (a ∷ xs) (b ∷ ys) = same a b && same_list same xs ys
same_list same xs ys = false

abbrev pub same_route : CompactPortRoute → CompactPortRoute → Bool
same_route a b =
    same_integer a.owner_low b.owner_low
    && (same_integer a.owner_high b.owner_high
        && (same_integer a.target_low b.target_low
            && (a.target_path_id == b.target_path_id
                && (str_eq a.target_path b.target_path
                    && a.target_signal_id == b.target_signal_id))))

-- SameEndpointFields of db/EndpointDedup.h. The mark legacy_fallback_native_merge is not compared.
unfoldable pub same_endpoint_fields : EndpointRecord → EndpointRecord → Bool
same_endpoint_fields a b =
    same_kind a.kind b.kind
    && str_eq a.path b.path
    && str_eq a.file b.file
    && a.path_id == b.path_id
    && a.file_id == b.file_id
    && same_integer a.line b.line
    && str_eq a.direction b.direction
    && str_eq a.assignment_text b.assignment_text
    && same_bool a.has_assignment_range b.has_assignment_range
    && a.assignment_start == b.assignment_start
    && a.assignment_end == b.assignment_end
    && str_eq a.bit_map b.bit_map
    && same_bool a.bit_map_approximate b.bit_map_approximate
    && same_bool a.bit_map_logical_axes b.bit_map_logical_axes
    && same_bool a.bit_map_merged b.bit_map_merged
    && same_list (λ p q. same_integer p.0 q.0 && same_integer p.1 q.1) a.port_query_coverage
        b.port_query_coverage
    && same_list same_route a.compact_port_routes b.compact_port_routes
    && same_bool a.port_mapping_constant b.port_mapping_constant
    && same_bool a.port_mapping_unresolved b.port_mapping_unresolved
    && same_list ◌==◌ a.lhs_signal_ids b.lhs_signal_ids
    && same_list ◌==◌ a.rhs_signal_ids b.rhs_signal_ids
    && same_list str_eq a.lhs_signals b.lhs_signals
    && same_list str_eq a.rhs_signals b.rhs_signals
