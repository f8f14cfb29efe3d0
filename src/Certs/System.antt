-- ===== src/Certs/System.antt =====
-- What common/legocmd/lego.go uses of the operating system and of the ACME client: the variables of
-- the process, files, and the command line of lego.
use xray_r4u.Base.{
  ◌≡◌, Bool, true, false, Option, none, some, List, Bytes, bytes_beq, if◌then◌else◌,
}

pub record System : Type 1 where
  pub State : Type 0
  pub lookup_env : Bytes → State → Option Bytes
  -- False is an error, which the name or the value is to blame for.
  pub setenv : Bytes → Bytes → State → Bool × State
  pub unsetenv : Bytes → State → State
  -- Not `os.IsNotExist` of `os.Stat`.
  pub exists : Bytes → State → Bool
  -- The client's `Run`; false is an error, or a panic.
  pub run : List Bytes → State → Bool × State
  -- `path.Join` of the folder of certificates and a name, and `filepath.Abs`.
  pub in_certificates : Bytes → Bytes
  pub abs : Bytes → Bytes
  pub lookup_env-setenv :
      (k v j : Bytes) (s : State)
      → (setenv k v s).0 ≡ true
      → lookup_env j (setenv k v s).1 ≡ (if bytes_beq k j then some v else lookup_env j s)
  pub lookup_env-failed_setenv :
      (k v j : Bytes) (s : State)
      → (setenv k v s).0 ≡ false
      → lookup_env j (setenv k v s).1 ≡ lookup_env j s
  pub lookup_env-unsetenv :
      (k j : Bytes) (s : State)
      → lookup_env j (unsetenv k s) ≡ (if bytes_beq k j then none else lookup_env j s)
  -- What the environment once held can be set again.
  pub setenv-accepts :
      (k v : Bytes) (s t : State) → lookup_env k s ≡ some v → (setenv k v t).0 ≡ true
  pub exists-setenv : (k v p : Bytes) (s : State) → exists p (setenv k v s).1 ≡ exists p s
  pub exists-unsetenv : (k p : Bytes) (s : State) → exists p (unsetenv k s) ≡ exists p s
  -- The client reads the environment and does not write it.
  pub lookup_env-run :
      (args : List Bytes) (j : Bytes) (s : State) → lookup_env j (run args s).1 ≡ lookup_env j s
