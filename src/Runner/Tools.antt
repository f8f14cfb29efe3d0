-- ===== src/Runner/Tools.antt =====
-- The generators of main/tools/tools.go, which main/main.go runs in place of the panel. xray-core's
-- commands are an argument.
use xray_r4u.Base.{
  ◌≡◌, ◌≢◌, refl, Bool, true, false, Option, none, some, List, [], ◌∷◌, Bytes, bytes_beq,
  if◌then◌else◌, ◌||◌, not, codes, arith, Bool-cases, inl, inr,
}

abbrev pub tool_names : List Bytes
tool_names =
    codes "x25519"
    ∷ codes "mldsa65"
    ∷ codes "mlkem768"
    ∷ codes "vlessenc"
    ∷ codes "uuid"
    ∷ codes "help"
    ∷ []

abbrev pub is_named : Bytes → List Bytes → Bool
is_named a [] = false
is_named a (name ∷ names) = bytes_beq a name || is_named a names

abbrev pub is_prefix_word : Bytes → Bool
is_prefix_word a = bytes_beq a (codes "tools") || bytes_beq a (codes "tool")

-- On `os.Args`, the program's name first.
unfoldable pub is_tools_invocation : List Bytes → Bool
is_tools_invocation [] = false
is_tools_invocation (program ∷ []) = false
is_tools_invocation (program ∷ a ∷ rest) = is_prefix_word a || is_named a tool_names

-- A registered command: whether it can run, and what its flags leave of the arguments.
pub record Command : Type 0 where
  pub runnable : Bool
  pub parse_flags : List Bytes → Option (List Bytes)

-- The last four but `ran` exit with status 2.
pub data Ran : Type 0 where
  help : Ran
  ran : Bytes → List Bytes → Ran
  unknown_command : Bytes → Ran
  not_available : Bytes → Ran
  flag_error : Ran

abbrev pub is_help : Bytes → Bool
is_help a = bytes_beq a (codes "help") || (bytes_beq a (codes "-h") || bytes_beq a (codes "--help"))

module _ (find_command : Bytes → Option Command) where
  abbrev pub with_flags : Bytes → Option (List Bytes) → Ran
  with_flags name none = flag_error
  with_flags name (some args) = ran name args

  abbrev pub with_command : Bytes → List Bytes → Option Command → Ran
  with_command name args none = not_available name
  with_command name args (some c) =
      if not c.runnable then not_available name else with_flags name (c.parse_flags args)

  abbrev pub run_rest : List Bytes → Ran
  run_rest [] = help
  run_rest (name ∷ args) =
      if is_help name
      then help
      else if not (is_named name tool_names)
      then unknown_command name
      else with_command name args (find_command name)

  abbrev pub without_word : List Bytes → List Bytes
  without_word [] = []
  without_word (a ∷ rest) = if is_prefix_word a then rest else a ∷ rest

  unfoldable pub run_tools : List Bytes → Ran
  run_tools [] = help
  run_tools (program ∷ rest) = run_rest (without_word rest)

  flags_known : (a : Bytes) (o : Option (List Bytes)) → with_flags a o ≢ unknown_command a
  flags_known a none e = cc
  flags_known a (some args) e = cc

  command_known :
      (a : Bytes) (args : List Bytes) (o : Option Command)
      → with_command a args o ≢ unknown_command a
  command_known a args none e = cc
  command_known a args (some c) e = elim (Bool-cases c.runnable) [
    | inl up ↦ flags_known a (c.parse_flags args) (rw up at e)
    | inr down ↦ absurd (ground (arith, down))
  ]

  rest_known :
      (a : Bytes) (args : List Bytes)
      → is_named a tool_names ≡ true
      → run_rest (a ∷ args) ≢ unknown_command a
  rest_known a args named e = elim (Bool-cases (is_help a)) [
    | inl h ↦ absurd (ground (arith, h))
    | inr h ↦ command_known a args (find_command a) (rw (h, named) at e)
  ]

  -- A command's short form does what the form with `tools` in front does, and is never unknown.
  pub short_form_lem :
      (program a : Bytes) (args : List Bytes)
      → is_tools_invocation (program ∷ a ∷ args) ≡ true
      → is_prefix_word a ≡ false
      → (run_tools (program ∷ a ∷ args) ≡ run_tools (program ∷ codes "tools" ∷ a ∷ args))
        × (run_tools (program ∷ a ∷ args) ≢ unknown_command a)
  unfolding run_tools is_tools_invocation
  short_form_lem program a args h short =
      let named : is_named a tool_names ≡ true = rw short at h in
      (rw short refl, rw short (rest_known a args named))
