-- ===== src/Panel/Patterns.antt =====
-- The audit rules that the client of api/v2board/v2board.go hands out: their size, and what a
-- failure of the panel leaves.
use xray_r4u.Base.{
  ℕ, suc, ◌≡◌, Bool, true, Option, none, some, List, [], ◌∷◌, ◌++◌, Bytes, ℤ, pos, ltb, not, codes,
  length, arith, All, inl, inr, Option-cases,
}
use xray_r4u.Text.{trim_space}
use xray_r4u.Api.{DetectRule}
use xray_r4u.Panel.Json.{SimpleJson, or_empty}
use xray_r4u.Panel.Client.{Client, Response, parse_response}
use xray_r4u.Panel.Rules.{
  Outcome, max_pattern_length, safe_compile, safe_compile_or_default, local_rules, append_rule,
  append_rules, parse_panel_rule_list, fetch_panel_rules, domain_rules, route_rules, config_rules,
  get_node_rule, or_no_rules, domains_of,
}

abbrev is_short : Option Bytes → Bool
is_short none = true
is_short (some p) = not (ltb max_pattern_length (length p))

-- No rule of the list has a pattern longer than 1024 bytes.
abbrev pub IsBounded : List DetectRule → Type 0
IsBounded rules = All (λ r. is_short r.pattern ≡ true) rules

append-IsBounded : (xs ys : List DetectRule) → IsBounded xs → IsBounded ys → IsBounded (xs ++ ys)
append-IsBounded [] ys a b = b
append-IsBounded (x ∷ xs) ys a b = (a.0, append-IsBounded xs ys a.1 b)

module _ (compile : Bytes → Outcome) where
  short_compiled : (p : Bytes) → is_short (safe_compile_or_default compile p) ≡ true
  unfolding safe_compile_or_default safe_compile
  short_compiled p = ground arith

  pub local_rules-IsBounded : (lines : List Bytes) → IsBounded (local_rules compile lines)
  unfolding local_rules
  local_rules-IsBounded [] = tt
  local_rules-IsBounded (line ∷ lines) = (short_compiled line, local_rules-IsBounded lines)

  module _ (sj : SimpleJson) (parse : Bytes → ℤ) where
    open sj use {Json, get, check_get, get_array, must_string}

    domain_rules-IsBounded :
        (i : ℤ) (ds : List Bytes) → IsBounded (domain_rules compile sj parse i ds)
    unfolding domain_rules
    domain_rules-IsBounded i [] = tt
    domain_rules-IsBounded i (d ∷ ds) =
        ground (arith, short_compiled d, domain_rules-IsBounded i ds)

    append_rules-IsBounded : (js : List Json) → IsBounded (append_rules compile sj parse js)
    unfolding append_rules append_rule
    append_rules-IsBounded [] = tt
    append_rules-IsBounded (j ∷ js) = ground (
      arith,
      append_rules-IsBounded js,
      short_compiled (trim_space (must_string (get j (codes "pattern")))),
    )

    parse_panel_rule_list-IsBounded :
        (j : Json) → IsBounded (parse_panel_rule_list compile sj parse j)
    unfolding parse_panel_rule_list
    parse_panel_rule_list-IsBounded j = elim (Option-cases (check_get j (codes "rules"))) [
      | inl e ↦ ground (arith, append_rules-IsBounded (or_empty (get_array j)))
      | inr (rules, e) ↦ ground (arith, append_rules-IsBounded (or_empty (get_array rules)))
    ]

    route_rules-IsBounded : (i : ℕ) (js : List Json) → IsBounded (route_rules compile sj parse i js)
    unfolding route_rules
    route_rules-IsBounded i [] = tt
    route_rules-IsBounded i (j ∷ js) =
        append-IsBounded
          (domain_rules compile sj parse (pos i)
            (domains_of compile sj parse (check_get j (codes "domain"))))
          _
          (domain_rules-IsBounded (pos i)
            (domains_of compile sj parse (check_get j (codes "domain"))))
          (route_rules-IsBounded (suc i) js)

    config_rules-IsBounded : (cfg : Option Json) → IsBounded (config_rules compile sj parse cfg)
    unfolding config_rules
    config_rules-IsBounded none = tt
    config_rules-IsBounded (some cfg) = route_rules-IsBounded 0 _

    -- The rules that a client keeps are bounded.
    abbrev pub HasBoundedRules : Client Json → Type 0
    HasBoundedRules c = IsBounded c.local_rule_list × IsBounded c.panel_rules_cache

    fetch_panel_rules-IsBounded :
        (res : Response) (c : Client Json)
        → HasBoundedRules c
        → IsBounded (or_no_rules compile sj parse (fetch_panel_rules compile sj parse res c).0)
          × HasBoundedRules (fetch_panel_rules compile sj parse res c).1
    unfolding fetch_panel_rules
    fetch_panel_rules-IsBounded res c h = elim (Option-cases (parse_response sj res)) [
      | inl e ↦ ground arith
      | inr (j, e) ↦ ground (arith, parse_panel_rule_list-IsBounded j)
    ]

    -- Whatever the panel answers, no rule that is handed to the rule manager has a pattern longer
    -- than 1024 bytes, if those that the client holds have none, and the client keeps to that.
    pub get_node_rule-IsBounded :
        (res : Response) (c : Client Json)
        → HasBoundedRules c
        → IsBounded (get_node_rule compile sj parse res c).0
          × HasBoundedRules (get_node_rule compile sj parse res c).1
    unfolding get_node_rule
    get_node_rule-IsBounded res c h =
        let fetched = fetch_panel_rules-IsBounded res c h in
        let panel = or_no_rules compile sj parse (fetch_panel_rules compile sj parse res c).0 in
        let cfg = (fetch_panel_rules compile sj parse res c).1.config_resp in
        (
          append-IsBounded c.local_rule_list (panel ++ config_rules compile sj parse cfg) h.0 (
              append-IsBounded panel (config_rules compile sj parse cfg) fetched.0
                (config_rules-IsBounded cfg)),
          fetched.1,
        )

    -- After a fetch that succeeded, a fetch that fails gives the same panel rules and changes
    -- nothing.
    pub fetch_panel_rules_stale :
        (ok bad : Response) (c : Client Json) (j : Json)
        → parse_response sj ok ≡ some j
        → parse_response sj bad ≡ none
        → let c' = (fetch_panel_rules compile sj parse ok c).1 in
          fetch_panel_rules compile sj parse bad c'
          ≡ ((fetch_panel_rules compile sj parse ok c).0, c')
    unfolding fetch_panel_rules
    fetch_panel_rules_stale ok bad c j e f = ground arith
