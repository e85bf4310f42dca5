-- ===== src/Control/Codes.antt =====
-- The status codes of a policy are those that its settings name.
use Prim.Native.String.{◌++◌ as ◌<>◌}
use go_framework.Base.{true, false, List, [], some, String, GoMap, lookup, ◌≡◌, In, ◌⊎◌}
use go_framework.Control.{ConfigReader}
use go_framework.Control.Ints.{ℤ}

-- What the code of a status is.
abbrev pub Names : GoMap ℤ → List String → ℤ → Type 0
Names m ss i = (s : String) × In s ss × (lookup s m ≡ some i)

-- The setting for a method is that under the method's key, else that under the key, else the default.
abbrev pub IsSetting :
    {F A : Type 0} → ConfigReader F → String → (String → A) → A → String → A → Type 0
IsSetting cfg method get default key x =
    ((cfg.has (method <> "." <> key) ≡ true) × (x ≡ get (method <> "." <> key)))
    ⊎ ((cfg.has (method <> "." <> key) ≡ false)
        × (((cfg.has key ≡ true) × (x ≡ get key)) ⊎ ((cfg.has key ≡ false) × (x ≡ default))))

-- The codes that the settings under two keys name: those of the list under the first, and those of the
-- statuses under the second whose spelling is known.
abbrev pub IsNamed : {F : Type 0} → ConfigReader F → String → GoMap ℤ → String → String → ℤ → Type 0
IsNamed cfg method m ck sk a =
    ((ss : List String) × IsSetting cfg method cfg.string_list [] sk ss × Names m ss a)
    ⊎ ((is : List ℤ) × IsSetting cfg method cfg.int_list [] ck is × In a is)
