-- ===== src/Purecard/Automaton/Compile.antt =====
-- crates/pure-analyzer-purecard/src/grammar/compile.rs: `CompiledAutomaton::compile_v1`.
use Prim.Native.String.{String}
use text.Mathlib.Text.{◌==◌ as str_eq}
use pure_analyzer.Shared.{
  ℕ, ◌+◌, Bool, true, false, List, [], ◌∷◌, ◌||◌, ltb, if◌then◌else◌, length,
}
use pure_analyzer.Purecard.Spec.{
  StateSpec, GrammarSpecV1, unknown_start_state, too_many_frames, too_many_states,
  too_many_total_rules, duplicate_frame, max_frames, max_states, max_total_rules,
}
use pure_analyzer.Purecard.Automaton.{CompiledState, CompiledAutomaton}
use pure_analyzer.Purecard.Automaton.Lower.{Lowered, ok, err, ◌>>=◌, or_err, id_of, lower_states}
use pure_analyzer.Purecard.Automaton.Graph.{names_of, check_goto_acyclic, check_reachable_accept}

abbrev pub guard_bound : Bool → Lowered (Unit {0}) → Lowered (Unit {0})
guard_bound true e = e
guard_bound false e = ok tt

abbrev listed : List String → String → Bool
listed [] n = false
listed (m ∷ ms) n = str_eq m n || listed ms n

-- The loop that fills `frame_ids`; `before` are the frames it has met.
unfoldable pub check_frames : List String → List String → Lowered (Unit {0})
check_frames before [] = ok tt
check_frames before (f ∷ fs) =
    if listed before f then err (duplicate_frame f) else check_frames (f ∷ before) fs

abbrev pub total_rules : List (String × StateSpec) → ℕ
total_rules [] = 0
total_rules ((n, s) ∷ rest) = length s.rules + total_rules rest

abbrev pub automaton_of : GrammarSpecV1 → ℕ → List CompiledState → CompiledAutomaton
automaton_of spec start states = record {
  states = states;
  start = start;
  frame_count = length spec.frames;
  boundary_byte = spec.boundary_byte;
  state_names = names_of spec.states;
  frame_names = spec.frames;
}

unfoldable pub compile_v1 : GrammarSpecV1 → Lowered CompiledAutomaton
unfolding check_frames id_of lower_states check_goto_acyclic check_reachable_accept
compile_v1 spec =
    guard_bound (ltb max_frames (length spec.frames)) (err (too_many_frames (length spec.frames)))
    >>= λ _. check_frames [] spec.frames >>= λ _.
        guard_bound (ltb max_states (length spec.states))
          (err (too_many_states (length spec.states)))
        >>= λ _.
            or_err (unknown_start_state spec.start) (id_of (names_of spec.states) spec.start)
            >>= λ start.
                guard_bound (ltb max_total_rules (total_rules spec.states))
                  (err (too_many_total_rules (total_rules spec.states)))
                >>= λ _. lower_states (names_of spec.states) spec.frames spec.states >>= λ states.
                    check_goto_acyclic spec >>= λ _.
                    check_reachable_accept (automaton_of spec start states) spec.start >>= λ _.
                    ok (automaton_of spec start states)
