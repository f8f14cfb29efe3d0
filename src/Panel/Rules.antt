-- ===== src/Panel/Rules.antt =====
-- The audit rules of the client: `readLocalRuleList`, `fetchPanelRules`, `parsePanelRuleList` and
-- `GetNodeRule` of api/v2board/v2board.go, and common/regexutil/regexutil.go, which compiles their
-- patterns. What regexp.Compile answers within its time limit is an argument.
use xray_r4u.Base.{
  ℕ, suc, Bool, true, false, Option, none, some, List, [], ◌∷◌, ◌++◌, Bytes, ℤ, pos, negsuc, ltb,
  int_beq, bytes_beq, if◌then◌else◌, ◌&&◌, ◌||◌, not, codes, length,
}
use xray_r4u.Text.{trim_space, equal_fold, is_empty}
use xray_r4u.Api.{DetectRule}
use xray_r4u.Panel.Json.{Value, SimpleJson, or_empty}
use xray_r4u.Panel.Client.{Client, Response, parse_response}
use xray_r4u.Panel.Kick.{interface_to_int64}

-- What the compiler answers: an expression, an error, or nothing within `CompileTimeout`.
pub data Outcome : Type 0 where
  compiled broken timed_out : Outcome

abbrev pub max_pattern_length : ℕ
max_pattern_length = 1024

-- `SafeCompile`: the three reasons for which it refuses a pattern.
pub data CompileError : Type 0 where
  too_long invalid too_slow : CompileError

pub data Compiled : Type 0 where
  ok : Bytes → Compiled
  err : CompileError → Compiled

module _ (compile : Bytes → Outcome) where
  unfoldable pub safe_compile : Bytes → Compiled
  safe_compile pattern =
      if ltb max_pattern_length (length pattern) then err too_long else elim (compile pattern) [
        | compiled ↦ ok pattern
        | broken ↦ err invalid
        | timed_out ↦ err too_slow
      ]

  -- `SafeCompileOrDefault`: nil where the pattern is refused.
  unfoldable pub safe_compile_or_default : Bytes → Option Bytes
  unfolding safe_compile
  safe_compile_or_default pattern = elim (safe_compile pattern) [
    | ok source ↦ some source
    | err reason ↦ none
  ]

  unfoldable pub local_rules : List Bytes → List DetectRule
  unfolding safe_compile_or_default
  local_rules [] = []
  local_rules (line ∷ lines) =
      record { id = negsuc 0; pattern = safe_compile_or_default line } ∷ local_rules lines

  -- A file that cannot be opened, or a read error, gives no rule at all; `none` stands for both.
  unfoldable pub read_local_rule_list : Bytes → Option (List Bytes) → List DetectRule
  read_local_rule_list path lines = elim lines [
    | none ↦ []
    | some ls ↦ if is_empty path then [] else local_rules ls
  ]

  module _ (sj : SimpleJson) (parse : Bytes → ℤ) where
    open sj use {Json, get, check_get, get_array, value, must_string, must_string_array}

    abbrev pub json_to_int64 : Json → ℤ
    json_to_int64 j = interface_to_int64 parse (value j)

    -- An `enable` of false, "false" or "0" switches a rule off.
    abbrev disables : Value → Bool
    disables (Value.boolean b) = not b
    disables (Value.text t) = equal_fold t (codes "false") || bytes_beq t (codes "0")
    disables _ = false

    abbrev pub is_disabled : Option Json → Bool
    is_disabled none = false
    is_disabled (some en) = disables (value en)

    unfoldable pub append_rule : Json → List DetectRule → List DetectRule
    append_rule item rest =
        let pat = trim_space (must_string (get item (codes "pattern"))) in
        let rule : DetectRule = record {
          id = json_to_int64 (get item (codes "id"));
          pattern = safe_compile_or_default pat;
        } in
        if is_disabled (check_get item (codes "enable"))
        then rest
        else if is_empty pat
        then rest
        else rule ∷ rest

    unfoldable pub append_rules : List Json → List DetectRule
    append_rules [] = []
    append_rules (item ∷ items) = append_rule item (append_rules items)

    -- `{"rules": [...]}`, or a bare array.
    unfoldable pub parse_panel_rule_list : Json → List DetectRule
    parse_panel_rule_list response = elim (check_get response (codes "rules")) [
      | some rules ↦ append_rules (or_empty (get_array rules))
      | none ↦ append_rules (or_empty (get_array response))
    ]

    -- After a failure the rules of the last success serve; the same version, other than 0, spares
    -- the compilation.
    unfoldable pub fetch_panel_rules :
        Response → Client Json → Option (List DetectRule) × Client Json
    fetch_panel_rules res c = elim (parse_response sj res) [
      | none ↦ ((if c.panel_rules_ok then some c.panel_rules_cache else none), c)
      | some response ↦
          let version = json_to_int64 (get response (codes "version")) in
          let out = parse_panel_rule_list response in
          if c.panel_rules_ok
            && (not (int_beq version (pos 0)) && int_beq version c.panel_rule_version)
          then (some c.panel_rules_cache, c)
          else (
            some out,
            record c {
              panel_rule_version = version;
              panel_rules_cache = out;
              panel_rules_ok = true;
            },
          )
    ]

    unfoldable pub domain_rules : ℤ → List Bytes → List DetectRule
    domain_rules i [] = []
    domain_rules i (d ∷ ds) =
        let rest = domain_rules i ds in
        if is_empty d then rest else record { id = i; pattern = safe_compile_or_default d } ∷ rest

    abbrev pub domains_of : Option Json → List Bytes
    domains_of none = []
    domains_of (some domain) = must_string_array domain

    -- The rules of the config response, each numbered by its place.
    unfoldable pub route_rules : ℕ → List Json → List DetectRule
    unfolding domain_rules
    route_rules i [] = []
    route_rules i (rule ∷ rules) =
        domain_rules (pos i) (domains_of (check_get rule (codes "domain")))
        ++ route_rules (suc i) rules

    unfoldable pub config_rules : Option Json → List DetectRule
    config_rules none = []
    config_rules (some cfg) =
        route_rules 0 (elim (check_get (get cfg (codes "routes")) (codes "rules")) [
          | none ↦ []
          | some rules ↦ or_empty (get_array rules)
        ])

    abbrev pub or_no_rules : Option (List DetectRule) → List DetectRule
    or_no_rules none = []
    or_no_rules (some rules) = rules

    -- The local rules, the panel's, and those of the config response, in this order. It never fails.
    unfoldable pub get_node_rule : Response → Client Json → List DetectRule × Client Json
    get_node_rule res c =
        let (panel, c') = fetch_panel_rules res c in
        (c.local_rule_list ++ (or_no_rules panel ++ config_rules c'.config_resp), c')
