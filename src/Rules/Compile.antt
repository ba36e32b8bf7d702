-- ===== src/Rules/Compile.antt =====
-- rules/rules.rs: the compilation of expressions by the crate `bel`, which may panic, and their
-- validation.
use pingoo.Prelude.{
  String, List, Bool, false, not, Result, ok, err, ◌>>=◌, ensure, contains, string_eq, str_is_empty,
  ◌≡◌, ◌↔◌, In, contains_iff, arith, refl, ap, ◌∙◌, Bool-cases, inl, inr, sym, subst,
}

-- `catch_unwind(|| bel::Program::compile(expression))`
pub data Caught (Program : Type 0) : Type 0 where
  compiled : Program → Caught Program
  compile_failed : String → Caught Program
  unwound : Caught Program

pub data RulesError : Type 0 where
  unspecified : String → RulesError
  expression_is_not_valid : String → RulesError

abbrev pub program_of : {Program : Type 0} → Caught Program → Result Program RulesError
program_of (compiled program) = ok program
program_of (compile_failed message) = err (expression_is_not_valid message)
program_of unwound = err (expression_is_not_valid "invalid input")

-- `functions` are those that a program refers to
module _ {Program : Type 0} (compile : String → Caught Program)
    (functions : Program → List String) where
  unfoldable pub compile_expression : String → Result Program RulesError
  compile_expression expression = program_of (compile expression)

  abbrev pub check_functions : Program → Result (Unit {0}) RulesError
  check_functions program =
      ensure (not (contains (functions program) "@in"))
        (expression_is_not_valid "unknown operator: in") (ok tt)

  unfoldable pub validate_expression : String → Result (Unit {0}) RulesError
  validate_expression expression =
      ensure (not (str_is_empty expression)) (expression_is_not_valid "expression is empty")
        (program_of (compile expression) >>= check_functions)

  caught_iff :
      (caught : Caught Program)
      → ((program_of caught >>= check_functions) ≡ ok tt)
        ↔ ((program : Program) × ((caught ≡ compiled program) × (¬ (In "@in" (functions program)))))
  caught_iff (compiled program) = (
    λ h. (program, (refl, ground (arith, h, contains_iff (functions program) "@in"))),
    λ (p, (e, absent)).
        let same : program ≡ p = ground (arith, e) in
        let here = subst (λ q. ¬ (In "@in" (functions q))) (sym same) absent in
        ground (arith, here, contains_iff (functions program) "@in"),
  )
  caught_iff (compile_failed message) =
      (λ h. ground (arith, h), λ (p, (e, absent)). ground (arith, e))
  caught_iff unwound = (λ h. ground (arith, h), λ (p, (e, absent)). ground (arith, e))

  -- The validation accepts just the expressions that are not empty, compile without a failure or a
  -- panic and do not call the function for `in`; what it accepts also compiles.
  pub validate_expression_iff :
      (expression : String)
      → ((validate_expression expression ≡ ok tt) ↔ (
          (str_is_empty expression ≡ false)
          × ((program : Program) × ((compile expression ≡ compiled program)
                × (¬ (In "@in" (functions program)))))))
        × ((program : Program)
            → compile expression ≡ compiled program
            → compile_expression expression ≡ ok program)
  unfolding validate_expression compile_expression
  validate_expression_iff expression =
      let (to, from) = caught_iff (compile expression) in
      let step : Bool → Result (Unit {0}) RulesError = λ b.
        ensure (not b) (expression_is_not_valid "expression is empty")
          (program_of (compile expression) >>= check_functions) in
      (
        elim (Bool-cases (str_is_empty expression)) [
          | inl e ↦ (
            λ h. absurd (ground (arith, ap step (sym e) ∙ h)),
            λ (filled, rest). absurd (ground (arith, e, filled)),
          )
          | inr e ↦ (λ h. (e, to (ap step (sym e) ∙ h)), λ (filled, rest). ap step e ∙ from rest)
        ],
        λ program e. ap program_of e,
      )
