-- ===== src/Purecard/Grammar/Nesting.antt =====
-- Whole streams: a stream that the automaton takes is nested as `scan` describes, and a query that
-- it accepts is balanced.
use pure_analyzer.Shared.{
  ℕ, Bool, true, false, Option, none, some, List, [], ◌∷◌, ◌≡◌, refl, ap, ◌∙◌, arith, map,
}
use pure_analyzer.Purecard.Grammar.State.{State, in_str_lit, in_rel_col_str_lit, Frame}
use pure_analyzer.Purecard.Grammar.Dispatch.{step}
use pure_analyzer.Purecard.Grammar.Pda.{
  Result, ok, err, Pda, new, last, popped, then_run, advance, run, is_accepting, lands_on_a_term,
  completes_a_term,
}
use pure_analyzer.Purecard.Grammar.Bytes.{is_ws, value_boundary}
use pure_analyzer.Purecard.Grammar.Brackets.{
  closer, in_quotes, Change, stay, opened, closed, scan_step, owed_by, step-scan_step,
}

-- `quoted` is whether a literal is open, `owed` the closers of the open brackets, the innermost first.
pub record Nesting : Type 0 where
  pub quoted : Bool
  pub owed : List ℕ

abbrev pub outermost : Nesting
outermost = record { quoted = false; owed = [] }

abbrev first : List ℕ → Option ℕ
first [] = none
first (c ∷ cs) = some c

abbrev rest : List ℕ → List ℕ
rest [] = []
rest (c ∷ cs) = cs

abbrev changed : Change → List ℕ → List ℕ
changed stay owed = owed
changed (opened c) owed = c ∷ owed
changed closed owed = rest owed

abbrev after : List ℕ → Option (Bool × Change) → Option Nesting
after owed none = none
after owed (some (q, c)) = some (record { quoted = q; owed = changed c owed })

abbrev scan_byte : Nesting → ℕ → Option Nesting
scan_byte n b = after n.owed (scan_step n.quoted (first n.owed) b)

abbrev then_scan : (Nesting → Option Nesting) → Option Nesting → Option Nesting
then_scan k none = none
then_scan k (some n) = k n

unfoldable pub scan : Nesting → List ℕ → Option Nesting
unfolding scan_step
scan n [] = some n
scan n (b ∷ bs) = then_scan (λ m. scan m bs) (scan_byte n b)

abbrev pub nesting : Pda → Nesting
nesting p = record { quoted = in_quotes p.state; owed = map closer p.stack }

first-map : (stack : List Frame) → first (map closer stack) ≡ owed_by (last stack)
first-map [] = refl
first-map (f ∷ fs) = refl

map-popped : (stack : List Frame) → map closer (popped stack) ≡ rest (map closer stack)
map-popped [] = refl
map-popped (f ∷ fs) = refl

advance-scan_byte :
    (p q : Pda) (b : ℕ) → advance p b ≡ ok q → scan_byte (nesting p) b ≡ some (nesting q)
unfolding advance
advance-scan_byte p q b h =
    ground (arith, step-scan_step p.state (last p.stack) b, first-map p.stack, map-popped p.stack)

run_step :
    (p q : Pda) (b : ℕ) (bs : List ℕ)
    → ((m : Pda) → run m bs ≡ ok q → scan (nesting m) bs ≡ some (nesting q))
    → (r : Result Pda) → advance p b ≡ r
    → then_run (λ m. run m bs) r ≡ ok q
    → scan (nesting p) (b ∷ bs) ≡ some (nesting q)
unfolding scan
run_step p q b bs ih (ok m) e h = rw (advance-scan_byte p m b e) (ih m h)
run_step p q b bs ih (err d) e h = cc

-- A stream that the automaton takes is nested, outside its literals, as `scan` says, and the frames
-- on the automaton's stack are the brackets left open.
pub run-scan : (bs : List ℕ) (p q : Pda) → run p bs ≡ ok q → scan (nesting p) bs ≡ some (nesting q)
unfolding run
run-scan [] p q h = unfold scan in cc
run-scan (b ∷ bs) p q h = run_step p q b bs (λ m. run-scan bs m q) (advance p b) refl h

ends_outside_quotes :
    (s : State) → lands_on_a_term (step s none value_boundary) ≡ true → in_quotes s ≡ false
unfolding step in_quotes completes_a_term is_ws
ends_outside_quotes (in_str_lit escaped) h = ground arith
ends_outside_quotes (in_rel_col_str_lit escaped) h = ground arith
ends_outside_quotes _ h = refl

nesting-accepting : (q : Pda) → is_accepting q ≡ true → nesting q ≡ outermost
unfolding is_accepting
nesting-accepting q h = ground (arith, ends_outside_quotes q.state)

-- A query that the automaton accepts has every bracket closed and every literal ended.
pub accepted-balanced :
    (bytes : List ℕ) (q : Pda)
    → run new bytes ≡ ok q
    → is_accepting q ≡ true
    → scan outermost bytes ≡ some outermost
unfolding in_quotes
accepted-balanced bytes q h a = run-scan bytes new q h ∙ ap some (nesting-accepting q a)
