-- ===== src/Query/Capabilities.antt =====
-- internal/query/capabilities/registry.go: which queries the sketches can answer.
use prom_sketch_distributed.Common.{
  String, Bool, true, false, ◌||◌, not, List, [], ◌∷◌, str_eq, if◌then◌else◌,
}
use prom_sketch_distributed.Query.Parser.{
  Expr, func_expr, rollup_expr, aggr_func_expr, metric_expr, number_expr, other, Args, nil, cons,
  QueryInfo, is_range_query,
}
use Prim.Native.String.{◌++◌ as ◌+s◌}

pub record QueryCapability : Type 0 where
  pub can_handle_with_sketches : Bool
  pub reason : String
  pub required_function : String
  pub requires_quantile_arg : Bool

-- The keys of the map that NewRegistry builds.
abbrev pub supported_functions : List String
supported_functions =
    "avg_over_time" ∷ "sum_over_time" ∷ "sum2_over_time" ∷ "count_over_time" ∷ "stddev_over_time"
    ∷ "stdvar_over_time" ∷ "quantile_over_time" ∷ "min_over_time" ∷ "max_over_time"
    ∷ "entropy_over_time" ∷ "distinct_over_time" ∷ "l1_over_time" ∷ "l2_over_time" ∷ []

unfoldable pub contains : List String → String → Bool
contains [] s = false
contains (x ∷ xs) s = str_eq s x || contains xs s

unfoldable pub is_supported_function : String → Bool
unfolding contains
is_supported_function func_name = contains supported_functions func_name

abbrev pub refused : String → QueryCapability
refused reason = record {
  can_handle_with_sketches = false;
  reason = reason;
  required_function = "";
  requires_quantile_arg = false;
}

abbrev pub accepted : String → QueryCapability
accepted func_name = record {
  can_handle_with_sketches = true;
  reason = "";
  required_function = func_name;
  requires_quantile_arg = str_eq func_name "quantile_over_time";
}

unfoldable pub can_handle : {F : Type 0} → QueryInfo F → QueryCapability
unfolding is_range_query
can_handle info =
    if info.is_aggregate
    then refused "aggregate functions not supported by sketches"
    else if str_eq info.function_name ""
    then refused "not a function query"
    else if not (is_supported_function info.function_name)
    then refused ("function not supported: " +s info.function_name)
    else if not (is_range_query info)
    then refused "not a range query"
    else accepted info.function_name

-- Whether the first argument is a rollup.
unfoldable pub has_rollup : {F : Type 0} → Args F → Bool
has_rollup nil = false
has_rollup (cons (rollup_expr w e) args) = true
has_rollup (cons (number_expr x) args) = false
has_rollup (cons (func_expr n a) args) = false
has_rollup (cons (aggr_func_expr n a) args) = false
has_rollup (cons (metric_expr f) args) = false
has_rollup (cons other args) = false

unfoldable pub analyze_query : {F : Type 0} → Expr F → QueryCapability
unfolding has_rollup
analyze_query (func_expr n args) =
    if is_supported_function n
    then (if has_rollup args then accepted n else refused "rollup function requires time range")
    else refused ("function not supported: " +s n)
analyze_query (rollup_expr w e) = refused "rollup expression requires a function wrapper"
analyze_query (aggr_func_expr n args) = refused "aggregate functions not supported"
analyze_query (metric_expr f) = refused "raw metric query, not a function"
analyze_query (number_expr x) = refused "unsupported expression type"
analyze_query other = refused "unsupported expression type"

-- Go's map order is not fixed; this is the order of the literal.
unfoldable pub get_supported_functions : List String
get_supported_functions = supported_functions
