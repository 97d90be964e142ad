-- ===== src/Lib.antt =====
-- pure-analyzer checks and rewrites queries of the Pure language, and its PureCARD crate restricts a
-- language model's output to them byte by byte. Four parts are modelled.
--
-- The byte automaton, crates/pure-analyzer-purecard/src/grammar/pda.rs, is a state and a stack of
-- bracket frames; `advance` takes one byte or reports a dead state, and masks are computed from
-- `admits` and `probe`, which replay a token's bytes over a scratch stack. Files of Purecard/Grammar:
--   State, Names, Index     `State`, `Frame`, `Step`, their names and the dense numbering.
--   Bytes                   byte classes, `close_to` and the tests on frames.
--   Hubs, Lexemes, Binders  the `step_*` functions: between lexemes, inside one, and for the binders
--                           of lambdas.
--   Dispatch, Pda           `step`; `advance`, `is_accepting`, `admits` and `probe`. A configuration
--                           is the record `Pda`, and the mutation of `&mut self` is the returned
--                           record.
--   Brackets, Nesting       an independent scanner of brackets and quotes, and its refinement.
--   Finish, Completion      a completion for each state and frame.
--   Replay, Partition       the replays against the live automaton, and the ambient flag of `probe`.
--   Frames, Accepting       the stack's shape, and the accepting configurations.
--   Numbering, Delegation, Stable
--                           the numbering, the states that open a `$` sigil, and the steps that no
--                           frame changes.
--
-- The decoder above the automaton. A `CompiledGrammar` partitions the vocabulary at a state into the
-- tokens that survive whatever the stack, and those whose verdict is deferred to the live stack; a
-- session makes the mask of a step from both. The automaton may also be a table, lowered from a spec.
-- Files of Purecard, for crates/pure-analyzer-purecard/src:
--   Mask, Vocab             mask.rs and vocab.rs. A word of a mask is its 64 bits.
--   Spec                    grammar/spec.rs: a grammar as a table of guarded rules.
--   Automaton               grammar/compile.rs: the lowered table, `step` and `RtnPda`.
--   Automaton/Lower, Graph, Compile
--                           `compile_v1`: the lowering, the two traversals, and all checks in order.
--   Automaton/Closed, Range what a lowered table may lead to.
--   Automaton/Search, Drain, Rounds, Chains, Edges, Leads
--                           the search for cycles and the chains of `Goto`s.
--   Automaton/Ambient       when a probe speaks for every stack.
--   Compiled                grammar/compiled.rs: the partitions and their cache.
--   Session                 session.rs with no schema: `allowed_mask`, `accept_token`, `accept_byte`.
--   Session/Masks, Verdicts, Sound, Kept, Calls, Reach, Hosted, Offered
--                           a mask bit by bit, and all sessions that calls on one grammar bring about.
--   Schema/Trie             schema/trie.rs: the trie of legal names and the walk of a token.
--   Schema/Nodes, Labels, Legal, Stays
--                           what each node spells, and which tokens a walk keeps.
--
-- Fix plans, crates/pure-analyzer-diagnostics/src/fix_plan.rs (with fix.rs, file.rs and diagnostic.rs),
-- select the machine-applicable edits of diagnostics and apply them to the analysed sources. Files
-- of Diagnostics:
--   Text                    a `String` as its UTF-8 bytes, `str::is_char_boundary` and
--                           `String::replace_range`, whose panics are `none`.
--   Fix                     `Fix`, `TextEdit` and what they are made of.
--   FixPlan/Plan, Order     the plan's records and errors; the sort keys.
--   FixPlan/Validate, Build `validate_fix`, `edits_overlap`, and `FixPlan::build` loop by loop.
--   FixPlan/Apply           `apply`, `preview`, `check` and `validate_sources`.
--   FixPlan/Sorting, Splice sorted edits and one-pass splicing.
--   FixPlan/Selected, Accepted, Safe, Complete
--                           what `build` checks, accepts and returns, and that it leaves nothing out.
--   FixPlan/Sources, Applied, Twice
--                           which sources `apply` takes, what it returns for them, and a second run.
--   Codes, Reasons, Registry
--                           the registries of code.rs and verdict.rs, read and printed.
--
-- The documents of the language server, crates/pure-analyzer-lsp/src/document.rs: client texts, whose
-- positions count lines and UTF-16 units, are changed in place under versions. Files of Lsp:
--   Chars                   a `str` as its code points; lengths, cuts and newlines.
--   Document                `utf16_position`, `byte_offset`, `apply_change` and what they call.
--   Store                   `DocumentStore`: `replace`, `remove` and `apply_changes`.
--   Lines, Positions, Offsets
--                           cuts at offsets and newlines, and positions there and back.
--   Changes, Versions, Newer
--                           what a change does to a text, and a call to the store.
--
-- Shared holds the library's names that all parts use, lists over native numbers, and the maps that
-- stand for `BTreeMap`.
--
-- Bytes, offsets, ids and file numbers are natural numbers. The lines, UTF-16 units and revisions of
-- documents, which the source adds with checks, have the bounds of 32 and 64 bits written out; offsets
-- into a text in memory fit their width. The number of tokens is cut to 32 bits where the source casts
-- it; sessions share one grammar, whose cells any of them may fill. The automaton's numbering states
-- its own bound. Every loop is a recursion on its list, or on a count where the source bounds it:
-- `step` follows `Goto`s for one round more than there are states, the searches have the source's
-- budgets, and running out is what the source does there. The sorts are stable insertion sorts, as
-- `sort_by` is only known to be stable. `TextRange` is of the package text-size, which refuses a
-- reversed range; that edits are not reversed is a hypothesis where it is used, and so is that sources
-- and replacements are strings, by their first byte.
--
-- Not modelled: reading a spec's JSON, the schema narrowing of a session, `pack_le_bytes_into`, the
-- transport of the language server, the lexer and parsers, the passes and the output formats, and
-- whatever reads files or runs threads.
pub mod Shared
pub mod Diagnostics
pub mod Purecard
pub mod Lsp
