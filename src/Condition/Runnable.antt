-- ===== src/Condition/Runnable.antt =====
-- Conditions that can be applied: each comparison names a field, and has a compiled pattern where
-- its operator wants one (internal/condition/condition.go).
use ggt.Prelude.{false, Option, none, some, [], ◌≡◌, Text, text_eq}
use ggt.Condition.{
  Operator, Condition, and, or, not, comparison, Conditions, no_conditions, condition,
}
use ggt.Condition.Parse.{is_pattern}

abbrev pub HasPattern : Operator → Option Text → Type 0
HasPattern op none = is_pattern op ≡ false
HasPattern op (some p) = Unit

unfoldable mutual
  pub IsRunnable : Condition → Type 0
  IsRunnable (and cs) = AllRunnable cs
  IsRunnable (or cs) = AllRunnable cs
  IsRunnable (not c) = IsRunnable c
  IsRunnable (comparison field op value pattern) =
      (text_eq field [] ≡ false) × HasPattern op pattern

  pub AllRunnable : Conditions → Type 0
  AllRunnable no_conditions = Unit
  AllRunnable (condition c cs) = IsRunnable c × AllRunnable cs
