-- ===== src/Purecard/Automaton/Tests.antt =====
-- A table for nested parentheses, and one whose rule asks for an empty stack.
use pure_analyzer.Shared.{ℕ, suc, zero, true, false, none, some, [], ◌∷◌, ◌≡◌, refl, arith}
use pure_analyzer.Purecard.Spec.{matches, Guard, Action, ByteTest, TransitionRule, GrammarSpecV1}
use pure_analyzer.Purecard.Automaton.{
  is_accepting_state, guard_matches, CompiledAction, CompiledGuard, CompiledRule, CompiledAutomaton,
  at, step, admits, probe, is_dead,
}
use pure_analyzer.Purecard.Automaton.Lower.{ok}
use pure_analyzer.Purecard.Automaton.Compile.{compile_v1}
use pure_analyzer.Purecard.Automaton.Range.{StepIsClosed, compile_v1-closed}
use pure_analyzer.Purecard.Automaton.Leads.{Leads, perform, compile_v1-Leads}
use pure_analyzer.Purecard.Automaton.Ambient.{IsStackBlind, over, probe-rtn-over}

abbrev pub rule : ByteTest → Guard → Action → TransitionRule
rule t g a = record { byte_test = t; guard = g; action = a }

-- "enter" hands every byte to "body", which opens on 40 and closes on 41.
abbrev pub parens : GrammarSpecV1
parens = record {
  start = "enter";
  boundary_byte = 32;
  frames = "open" ∷ [];
  states =
      (
        "body",
        record {
          accepting = true;
          rules =
              rule (ByteTest.exact 40) Guard.always (Action.push "open" "body")
              ∷ rule (ByteTest.exact 41) Guard.stack_non_empty (Action.pop "enter")
              ∷ [];
        },
      )
      ∷ (
        "enter",
        record {
          accepting = false;
          rules = rule ByteTest.any Guard.always (Action.goto "body") ∷ [];
        },
      )
      ∷ [];
}

abbrev compiled_rule : ByteTest → CompiledGuard → CompiledAction → CompiledRule
compiled_rule t g a = record { byte_test = t; guard = g; action = a }

abbrev pub parens_automaton : CompiledAutomaton
parens_automaton = record {
  states =
      record {
        accepting = true;
        rules =
            compiled_rule (ByteTest.exact 40) CompiledGuard.always (CompiledAction.push 0 0)
            ∷ compiled_rule (ByteTest.exact 41) CompiledGuard.stack_non_empty (CompiledAction.pop 1)
            ∷ [];
      }
      ∷ record {
        accepting = false;
        rules = compiled_rule ByteTest.any CompiledGuard.always (CompiledAction.goto 0) ∷ [];
      }
      ∷ [];
  start = 1;
  frame_count = 1;
  boundary_byte = 32;
  state_names = "body" ∷ "enter" ∷ [];
  frame_names = "open" ∷ [];
}

pub parens_compiled : compile_v1 parens ≡ ok parens_automaton
unfolding compile_v1 is_accepting_state matches
parens_compiled = refl

-- From "enter", under a frame, 41 pops and leads back to "enter".
compile_v1-closed_example : StepIsClosed 2 1 (some 0) (step parens_automaton 1 (some 0) 41)
compile_v1-closed_example = compile_v1-closed parens parens_automaton 1 (some 0) 41 parens_compiled

compile_v1-Leads_example :
    (c : CompiledAction) × Leads parens_automaton.states (some 0) 41 1 c
    × (step parens_automaton 1 (some 0) 41 ≡ perform c (some 0))
compile_v1-Leads_example = compile_v1-Leads parens parens_automaton 1 (some 0) 41 parens_compiled

body_blind :
    (f b : ℕ)
    → is_dead (step parens_automaton 0 none b) ≡ false
    → step parens_automaton 0 (some f) b ≡ step parens_automaton 0 none b
unfolding step matches guard_matches
body_blind f b h = ground arith

pub parens-IsStackBlind : IsStackBlind parens_automaton
unfolding step matches guard_matches
parens-IsStackBlind zero f b lt h = body_blind f b h
parens-IsStackBlind (suc zero) f b lt h = ground arith
parens-IsStackBlind (suc (suc s)) f b lt h = refl

probe-rtn-over_example :
    admits parens_automaton (over (at 1) (0 ∷ [])) (40 ∷ 41 ∷ 40 ∷ [])
    ≡ (probe parens_automaton (at 1) (40 ∷ 41 ∷ 40 ∷ [])).alive
unfolding probe step matches
probe-rtn-over_example =
    probe-rtn-over parens_automaton (at 1) (0 ∷ []) (40 ∷ 41 ∷ 40 ∷ []) parens-IsStackBlind
      (omega arith, tt) refl

-- 40 opens and 59 ends, the latter over the empty stack only.
abbrev statement : GrammarSpecV1
statement = record {
  start = "body";
  boundary_byte = 32;
  frames = "open" ∷ [];
  states =
      (
        "body",
        record {
          accepting = true;
          rules =
              rule (ByteTest.exact 40) Guard.always (Action.push "open" "body")
              ∷ rule (ByteTest.exact 59) Guard.stack_empty (Action.next "body")
              ∷ [];
        },
      )
      ∷ [];
}

abbrev pub statement_automaton : CompiledAutomaton
statement_automaton = record {
  states =
      record {
        accepting = true;
        rules =
            compiled_rule (ByteTest.exact 40) CompiledGuard.always (CompiledAction.push 0 0)
            ∷ compiled_rule (ByteTest.exact 59) CompiledGuard.stack_empty (CompiledAction.next 0)
            ∷ [];
      }
      ∷ [];
  start = 0;
  frame_count = 1;
  boundary_byte = 32;
  state_names = "body" ∷ [];
  frame_names = "open" ∷ [];
}

statement_compiled : compile_v1 statement ≡ ok statement_automaton
unfolding compile_v1 is_accepting_state matches
statement_compiled = refl
