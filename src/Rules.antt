-- ===== src/Rules.antt =====
-- pingoo/rules.rs: whether a rule applies to a request. The evaluator of expressions, the crate `bel`,
-- is a parameter: a compiled expression gives a value or fails, and a value may equal `true`.
pub mod Compile
use pingoo.Prelude.{Bool, true, false, Option, none, some}
use pingoo.Config.Load.{Rule}

pub record Evaluator (Expr : Type 0) : Type 1 where
  pub Context : Type 0
  pub Value : Type 0
  pub execute : Expr → Context → Option Value
  pub equals_true : Value → Bool

module _ {Expr : Type 0} (bel : Evaluator Expr) where
  open bel use {Context, execute, equals_true}

  -- an expression that fails does not match
  unfoldable pub expression_matches : Option Expr → Context → Bool
  expression_matches none ctx = true
  expression_matches (some e) ctx = elim (execute e ctx) [ none ↦ false | some v ↦ equals_true v ]

  unfoldable pub match_request : Rule Expr → Context → Bool
  unfolding expression_matches
  match_request rule ctx = expression_matches rule.expression ctx
