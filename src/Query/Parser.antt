-- ===== src/Query/Parser.antt =====
-- internal/query/parser/parser.go. metricsql's parser is a parameter of the callers; `Expr` has the
-- parts of its syntax tree that the code reads: `Window.Duration(0)` is in milliseconds, and `other`
-- stands for every kind of expression that the code has no case for. `F` is the type of floats.
use prom_sketch_distributed.Common.{
  String, Bool, true, false, Option, none, some, List, [], ◌∷◌, ◌++◌, str_eq, if◌then◌else◌, ℤ, pos,
  ltb_ℤ, Result, ok, ◌>>=◌,
}
use Prim.Native.String.{◌++◌ as ◌+s◌}

pub record LabelFilter : Type 0 where
  pub label : String
  pub filter_value : String
  pub is_negative : Bool
  pub is_regexp : Bool

mutual
  pub data Expr (F : Type 0) : Type 0 where
    func_expr : String → Args F → Expr F
    rollup_expr : Option ℤ → Expr F → Expr F
    aggr_func_expr : String → Args F → Expr F
    metric_expr : List (List LabelFilter) → Expr F
    number_expr : F → Expr F
    other : Expr F

  pub data Args (F : Type 0) : Type 0 where
    nil : Args F
    cons : Expr F → Args F → Args F

pub data MatchType : Type 0 where
  match_equal match_not_equal match_regexp match_not_regexp : MatchType

pub record LabelMatcher : Type 0 where
  pub name : String
  pub match_type : MatchType
  pub value : String

pub record QueryInfo (F : Type 0) : Type 0 where
  pub query : String
  pub expr : Expr F
  pub function_name : String
  pub func_args : List F
  pub metric_name : String
  pub label_matchers : List LabelMatcher
  pub range : ℤ
  pub is_aggregate : Bool
  pub aggregate_op : String

unfoldable pub match_type_of : LabelFilter → MatchType
match_type_of lf =
    if lf.is_negative
    then (if lf.is_regexp then match_not_regexp else match_not_equal)
    else (if lf.is_regexp then match_regexp else match_equal)

module _ {F : Type 0} where
  -- The loop over the first group of filters.
  unfoldable pub add_filters : List LabelFilter → QueryInfo F → QueryInfo F
  unfolding match_type_of
  add_filters [] info = info
  add_filters (lf ∷ filters) info = add_filters filters (record info {
    metric_name = if str_eq lf.label "__name__" then lf.filter_value else info.metric_name;
    label_matchers =
        info.label_matchers
        ++ record { name = lf.label; match_type = match_type_of lf; value = lf.filter_value } ∷ [];
  })

  unfoldable pub extract_metric_info : List (List LabelFilter) → QueryInfo F → QueryInfo F
  unfolding add_filters
  extract_metric_info [] info = info
  extract_metric_info (filters ∷ _) info = add_filters filters info

  -- The metric below a rollup, if there is one.
  unfoldable pub extract_inner : Expr F → QueryInfo F → QueryInfo F
  unfolding extract_metric_info
  extract_inner (metric_expr filterss) info = extract_metric_info filterss info
  extract_inner (func_expr n args) info = info
  extract_inner (rollup_expr w e) info = info
  extract_inner (aggr_func_expr n args) info = info
  extract_inner (number_expr x) info = info
  extract_inner other info = info

  unfoldable pub extract_rollup : Option ℤ → Expr F → QueryInfo F → QueryInfo F
  unfolding extract_inner
  extract_rollup none e info = extract_inner e info
  extract_rollup (some duration) e info = extract_inner e (record info { range = duration })

  -- The numbers among the arguments, in order.
  unfoldable pub number_args : Args F → List F
  number_args nil = []
  number_args (cons (number_expr x) args) = x ∷ number_args args
  number_args (cons (func_expr n a) args) = number_args args
  number_args (cons (rollup_expr w e) args) = number_args args
  number_args (cons (aggr_func_expr n a) args) = number_args args
  number_args (cons (metric_expr f) args) = number_args args
  number_args (cons other args) = number_args args

  -- The last rollup among the arguments: each one found replaces the one before.
  unfoldable pub last_rollup : Args F → Option (Option ℤ × Expr F) → Option (Option ℤ × Expr F)
  last_rollup nil found = found
  last_rollup (cons (rollup_expr w e) args) found = last_rollup args (some (w, e))
  last_rollup (cons (number_expr x) args) found = last_rollup args found
  last_rollup (cons (func_expr n a) args) found = last_rollup args found
  last_rollup (cons (aggr_func_expr n a) args) found = last_rollup args found
  last_rollup (cons (metric_expr f) args) found = last_rollup args found
  last_rollup (cons other args) found = last_rollup args found

  unfoldable pub extract_func : Option (Option ℤ × Expr F) → QueryInfo F → QueryInfo F
  unfolding extract_rollup
  extract_func none info = info
  extract_func (some (w, e)) info = extract_rollup w e info

  unfoldable pub extract_info : Expr F → QueryInfo F → QueryInfo F
  unfolding extract_func extract_rollup extract_metric_info number_args last_rollup
  extract_info (func_expr n args) info =
      extract_func (last_rollup args none)
        (record info { function_name = n; func_args = info.func_args ++ number_args args })
  extract_info (rollup_expr w e) info = extract_rollup w e info
  extract_info (aggr_func_expr n nil) info = record info { is_aggregate = true; aggregate_op = n }
  extract_info (aggr_func_expr n (cons e args)) info =
      extract_info e (record info { is_aggregate = true; aggregate_op = n })
  extract_info (metric_expr filterss) info = extract_metric_info filterss info
  extract_info (number_expr x) info = info
  extract_info other info = info

  abbrev pub empty_info : String → Expr F → QueryInfo F
  empty_info query expr = record {
    query = query;
    expr = expr;
    function_name = "";
    func_args = [];
    metric_name = "";
    label_matchers = [];
    range = pos 0;
    is_aggregate = false;
    aggregate_op = "";
  }

  -- Parse, with metricsql.Parse as a parameter.
  unfoldable pub parse :
      {E : Type 0} → (String → Result E (Expr F)) → String → Result E (QueryInfo F)
  unfolding extract_info
  parse metricsql_parse query =
      metricsql_parse query >>= λ expr. ok (extract_info expr (empty_info query expr))

  -- The default is 0.5.
  unfoldable pub quantile_value : F → QueryInfo F → F
  quantile_value half info = elim info.func_args [ [] ↦ half | x ∷ _ ↦ x ]

  unfoldable pub is_range_query : QueryInfo F → Bool
  is_range_query info = ltb_ℤ (pos 0) info.range

  unfoldable pub get_metric_selector : QueryInfo F → String
  get_metric_selector info =
      if str_eq info.metric_name ""
      then elim info.label_matchers [ [] ↦ "" | m ∷ _ ↦ "{" +s (m.name +s "}") ]
      else info.metric_name
