-- ===== src/Query/Eligible.antt =====
-- parser.go and registry.go together: which expressions are sent to the sketches.
use prom_sketch_distributed.Common.{
  String, ◌≡◌, refl, sym, ap, ◌∙◌, subst, ◌↔◌, ◌⊎◌, inl, inr, true, false, Option, none, some, List,
  [], ◌∷◌, ◌++◌, arith, str_eq, eq_iff, if◌then◌else◌, ℤ, pos, ◌<ℤ◌,
}
use prom_sketch_distributed.Query.Parser.{
  LabelFilter, Expr, func_expr, rollup_expr, aggr_func_expr, metric_expr, number_expr, other, Args,
  nil, cons, QueryInfo, match_type_of, add_filters, extract_metric_info, extract_inner,
  extract_rollup, number_args, last_rollup, extract_func, extract_info, empty_info,
}
use prom_sketch_distributed.Query.Capabilities.{
  is_supported_function, can_handle, has_rollup, analyze_query,
}

abbrev window_or : Option ℤ → ℤ → ℤ
window_or none d = d
window_or (some w) d = w

no_function : is_supported_function "" ≡ false
unfolding is_supported_function
no_function = refl

module _ {F : Type 0} where
  -- The fields that decide are the same in both.
  record SameKind (info info' : QueryInfo F) : Type 0 where
    function_name : info'.function_name ≡ info.function_name
    range : info'.range ≡ info.range
    is_aggregate : info'.is_aggregate ≡ info.is_aggregate

  add_filters-SameKind :
      (filters : List LabelFilter) (info : QueryInfo F) → SameKind info (add_filters filters info)
  unfolding add_filters
  add_filters-SameKind [] info = record { function_name = refl; range = refl; is_aggregate = refl }
  add_filters-SameKind (lf ∷ filters) info =
      let k = add_filters-SameKind filters (record info {
        metric_name = if str_eq lf.label "__name__" then lf.filter_value else info.metric_name;
        label_matchers =
            info.label_matchers
            ++ record { name = lf.label; match_type = match_type_of lf; value = lf.filter_value }
              ∷ [];
      }) in
      record { function_name = k.function_name; range = k.range; is_aggregate = k.is_aggregate }

  extract_metric_info-SameKind :
      (filterss : List (List LabelFilter)) (info : QueryInfo F)
      → SameKind info (extract_metric_info filterss info)
  unfolding extract_metric_info
  extract_metric_info-SameKind [] info = record {
    function_name = refl;
    range = refl;
    is_aggregate = refl;
  }
  extract_metric_info-SameKind (filters ∷ rest) info = add_filters-SameKind filters info

  extract_inner-SameKind : (e : Expr F) (info : QueryInfo F) → SameKind info (extract_inner e info)
  unfolding extract_inner
  extract_inner-SameKind (metric_expr filterss) info = extract_metric_info-SameKind filterss info
  extract_inner-SameKind _ info = record { function_name = refl; range = refl; is_aggregate = refl }

  record Rolled (w : Option ℤ) (info info' : QueryInfo F) : Type 0 where
    function_name : info'.function_name ≡ info.function_name
    range : info'.range ≡ window_or w info.range
    is_aggregate : info'.is_aggregate ≡ info.is_aggregate

  extract_rollup-Rolled :
      (w : Option ℤ) (e : Expr F) (info : QueryInfo F) → Rolled w info (extract_rollup w e info)
  unfolding extract_rollup
  extract_rollup-Rolled none e info =
      let k = extract_inner-SameKind e info in
      record { function_name = k.function_name; range = k.range; is_aggregate = k.is_aggregate }
  extract_rollup-Rolled (some d) e info =
      let k = extract_inner-SameKind e (record info { range = d }) in
      record { function_name = k.function_name; range = k.range; is_aggregate = k.is_aggregate }

  abbrev window_of : Option (Option ℤ × Expr F) → Option ℤ
  window_of none = none
  window_of (some (w, e)) = w

  extract_func-Rolled :
      (found : Option (Option ℤ × Expr F)) (info : QueryInfo F)
      → Rolled (window_of found) info (extract_func found info)
  unfolding extract_func
  extract_func-Rolled none info = record { function_name = refl; range = refl; is_aggregate = refl }
  extract_func-Rolled (some (w, e)) info = extract_rollup-Rolled w e info

  extract_info-aggregate :
      (e : Expr F) (info : QueryInfo F)
      → info.is_aggregate ≡ true
      → (extract_info e info).is_aggregate ≡ true
  unfolding extract_info
  extract_info-aggregate (func_expr n args) info h =
      (extract_func-Rolled (last_rollup args none) _).is_aggregate ∙ h
  extract_info-aggregate (rollup_expr w e) info h =
      (extract_rollup-Rolled w e info).is_aggregate ∙ h
  extract_info-aggregate (aggr_func_expr n nil) info h = refl
  extract_info-aggregate (aggr_func_expr n (cons e args)) info h = extract_info-aggregate e _ refl
  extract_info-aggregate (metric_expr filterss) info h =
      (extract_metric_info-SameKind filterss info).is_aggregate ∙ h
  extract_info-aggregate (number_expr x) info h = h
  extract_info-aggregate other info h = h

  -- The sketches take a query exactly when it is no aggregate, calls a supported function, and has a
  -- positive range.
  pub can_handle_iff :
      (info : QueryInfo F)
      → ((can_handle info).can_handle_with_sketches ≡ true) ↔ (
          (info.is_aggregate ≡ false)
          × (is_supported_function info.function_name ≡ true)
          × (pos 0 <ℤ info.range))
  unfolding can_handle
  can_handle_iff info = ground (arith, eq_iff info.function_name "", no_function)

  -- A call of a supported function whose last range argument has a positive window.
  abbrev pub IsEligible : Expr F → Type 0
  IsEligible (func_expr n args) =
      (is_supported_function n ≡ true)
      × ((w : ℤ) × (e : Expr F) × (last_rollup args none ≡ some (some w, e)) × (pos 0 <ℤ w))
  IsEligible _ = ⊥

  window_pos :
      (found : Option (Option ℤ × Expr F))
      → pos 0 <ℤ window_or (window_of found) (pos 0)
      → (w : ℤ) × (e : Expr F) × (found ≡ some (some w, e)) × (pos 0 <ℤ w)
  window_pos none h = absurd (omega arith)
  window_pos (some (none, e)) h = absurd (omega arith)
  window_pos (some (some w, e)) h = (w, e, refl, h)

  func-IsEligible :
      (n : String) (args : Args F) (info : QueryInfo F)
      → info.is_aggregate ≡ false
      → info.range ≡ pos 0
      → ((can_handle (extract_info (func_expr n args) info)).can_handle_with_sketches ≡ true)
        ↔ IsEligible (func_expr n args)
  unfolding extract_info
  func-IsEligible n args info plain start =
      let found = last_rollup args none in
      let info' : QueryInfo F = record info {
        function_name = n;
        func_args = info.func_args ++ number_args args;
      } in
      let k = extract_func-Rolled found info' in
      let c = can_handle_iff (extract_func found info') in
      (
        λ h.
            let (_, s, r) = c.0 h in
            (
              sym (ap is_supported_function k.function_name) ∙ s,
              window_pos found (
                  subst (λ (d : ℤ). pos 0 <ℤ d) (k.range ∙ ap (window_or (window_of found)) start)
                    r),
            ),
        λ (s, (w, e, eq, p)). c.1 (
          k.is_aggregate ∙ plain,
          ap is_supported_function k.function_name ∙ s,
          rw (k.range, eq) p,
        ),
      )

  not_eligible :
      (info : QueryInfo F)
      → (info.is_aggregate ≡ true) ⊎ (info.function_name ≡ "")
      → ((can_handle info).can_handle_with_sketches ≡ true) ↔ ⊥
  not_eligible info h = (
    λ t. let (a, s, _) = (can_handle_iff info).0 t in ground (arith, h, no_function),
    λ b. absurd b,
  )

  -- From the text's syntax tree to the decision: a parsed query goes to the sketches exactly when
  -- it is a call of a supported function whose last range argument has a positive window. So an
  -- aggregate never does, whatever it encloses.
  pub can_handle-IsEligible :
      (query : String) (e : Expr F)
      → ((can_handle (extract_info e (empty_info query e))).can_handle_with_sketches ≡ true)
        ↔ IsEligible e
  unfolding extract_info
  can_handle-IsEligible query (func_expr n args) =
      func-IsEligible n args (empty_info query (func_expr n args)) refl refl
  can_handle-IsEligible query (rollup_expr w e) =
      not_eligible _
        (inr (extract_rollup-Rolled w e (empty_info query (rollup_expr w e))).function_name)
  can_handle-IsEligible query (aggr_func_expr n nil) = not_eligible _ (inl refl)
  can_handle-IsEligible query (aggr_func_expr n (cons e args)) =
      not_eligible _ (inl (extract_info-aggregate e _ refl))
  can_handle-IsEligible query (metric_expr filterss) = not_eligible _ (
      inr
        (extract_metric_info-SameKind filterss
          (empty_info query (metric_expr filterss))).function_name)
  can_handle-IsEligible query (number_expr x) = not_eligible _ (inr refl)
  can_handle-IsEligible query other = not_eligible _ (inr refl)

  first_is_range :
      (n : String) (first : Expr F) (rest : Args F)
      → is_supported_function n ≡ true
      → ((analyze_query (func_expr n (cons first rest))).can_handle_with_sketches ≡ true)
        ↔ ((w : Option ℤ) × (e : Expr F) × (first ≡ rollup_expr w e))
  unfolding analyze_query has_rollup
  first_is_range n (rollup_expr w e) rest s =
      rw (s, analyze_query) ((λ h. (w, e, refl)), (λ h. refl))
  first_is_range n (number_expr x) rest s = rw (s, analyze_query) ((λ h. cc), (λ (w, e, h). cc))
  first_is_range n (func_expr m a) rest s = rw (s, analyze_query) ((λ h. cc), (λ (w, e, h). cc))
  first_is_range n (aggr_func_expr m a) rest s =
      rw (s, analyze_query) ((λ h. cc), (λ (w, e, h). cc))
  first_is_range n (metric_expr f) rest s = rw (s, analyze_query) ((λ h. cc), (λ (w, e, h). cc))
  first_is_range n other rest s = rw (s, analyze_query) ((λ h. cc), (λ (w, e, h). cc))

  -- A call that CanHandle takes, with any function and arguments, is taken by AnalyzeQuery exactly
  -- when its first argument is a range: with a number in front of the range, it is refused.
  pub analyze_query_differs :
      (query n : String) (first : Expr F) (rest : Args F)
      → let call = func_expr n (cons first rest) in
        IsEligible call
        → ((can_handle (extract_info call (empty_info query call))).can_handle_with_sketches ≡ true)
          × (((analyze_query call).can_handle_with_sketches ≡ true)
              ↔ ((w : Option ℤ) × (e : Expr F) × (first ≡ rollup_expr w e)))
  analyze_query_differs query n first rest h = (
    (can_handle-IsEligible query (func_expr n (cons first rest))).1 h,
    first_is_range n first rest h.0,
  )
