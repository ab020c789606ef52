-- ===== src/Cli/Handled.antt =====
-- opennopd/subsystems/clicommands.c: a line runs nothing but what was registered for its first tokens.
use Prim.Native.String.{String}
use text.Mathlib.Text.{◌==◌ as str_eq}
use mathlib.Core.Option.{none-ne-some}
use opennop.Prelude.{
  ℕ, ◌≡◌, ◌≢◌, refl, sym, ◌∙◌, ap, inl, inr, Bool, true, false, Option, none, some, List, [], ◌∷◌,
  ◌++◌, if◌then◌else◌, Bool-cases, Option-cases, ◌==◌,
}
use opennop.Cli.{
  Handler, Entry, Commands, null, command, assigned, new_commands, register_at, find_command,
  executed, Outcome, ran, helped, ended, is_help, run_leaf, visit, execute_loop, Cli, Reply,
  node_of, register_command, with_prompt, cli_help, cli_mode_prompt, execute_commands, reply_of,
}
use opennop.Cli.Registry.{effect, below_or, handler_at, handler_at-nil}
use opennop.Cli.Execute.{given}

-- Every command without children has a handler.
abbrev pub IsHandled : Commands → Type 0
IsHandled null = Unit
IsHandled (command c e child next) =
    (child ≡ null → e.command_handler ≢ none) × IsHandled child × IsHandled next

-- A line that runs a handler: it begins with a registered path.
pub record Registered (node : Commands) (line : List String) (h : Handler)
    (parameters : List String) : Type 0 where
  pub path : List String
  pub args : List String
  pub takes : Bool
  pub splits : line ≡ path ++ args
  pub handled : handler_at node path ≡ some (h, takes)
  pub passes : parameters ≡ given takes args

-- What the search for a token returns has the token, if it is not NULL, and gives the node's
-- handlers at the paths that begin with it.
abbrev Stopped : Commands → String → Commands → Type 0
Stopped node t null = Unit
Stopped node t (command c e child next) =
    (str_eq c t ≡ true)
    × ((path : List String)
        → handler_at node (t ∷ path) ≡ below_or (effect e) path (handler_at child path))
    × IsHandled (command c e child next)

Stopped-beside :
    (c t : String) (e : Entry) (child next found : Commands)
    → str_eq c t ≡ false
    → Stopped next t found
    → Stopped (command c e child next) t found
unfolding handler_at
Stopped-beside c t e child next null differ s = tt
Stopped-beside c t e child next (command d f below beside) differ s =
    (s.0, λ path. rw differ (s.1 path), s.2)

find_command-Stopped :
    (node : Commands) (t : String) → IsHandled node → Stopped node t (find_command node t)
unfolding find_command handler_at
find_command-Stopped null t k = tt
find_command-Stopped (command c e child next) t k = elim (Bool-cases (str_eq c t)) [
  | inl agree ↦ rw agree (agree, λ path. rw agree refl, k)
  | inr differ ↦ rw differ (
      Stopped-beside c t e child next (find_command next t) differ
        (find_command-Stopped next t k.2))
]

executed-handled :
    (c t : String) (e : Entry) (child next : Commands)
    → str_eq c t ≡ true
    → e.command_handler ≢ none
    → (f : Handler × Bool) × (executed (command c e child next) t ≡ some f) × (effect e ≡ some f)
unfolding executed
executed-handled c t e child next same k = elim (Option-cases e.command_handler) [
  | inl old ↦ absurd (k old)
  | inr found ↦ ((found.0, e.hasparams), rw (same, found.1) refl, rw (found.1) refl)
]

below_or-handled :
    (here : Option (Handler × Bool)) (node : Commands) (path : List String) (f : Handler × Bool)
    → handler_at node path ≡ some f
    → below_or here path (handler_at node path) ≡ some f
below_or-handled here node [] f k = absurd (none-ne-some _ (sym (handler_at-nil node) ∙ k))
below_or-handled here node (u ∷ us) f k = k

run_leaf-ran :
    (g h : Handler) (p : Bool) (ts ps : List String) (after : Outcome)
    → run_leaf (some (g, p)) ts after ≡ ran h ps
    → (g ≡ h) × (ps ≡ given p ts)
run_leaf-ran g h true ts ps after r = (cc, cc)
run_leaf-ran g h false ts ps after r = (cc, cc)

-- One token: the handler that runs is at a path that begins with it.
visit-Registered :
    (node found : Commands) (t : String) (ts : List String) (h : Handler) (ps : List String)
    → Stopped node t found
    → ((child : Commands)
        → IsHandled child
        → execute_loop ts child ≡ ran h ps
        → Registered child ts h ps)
    → visit node found t ts (execute_loop ts) ≡ ran h ps
    → Registered node (t ∷ ts) h ps
visit-Registered node null t ts h ps s more r = cc
visit-Registered node (command c e (command d f below beside) next) t ts h ps s more r =
    let m = more (command d f below beside) s.2.1 r in
    record {
      path = t ∷ m.path;
      args = m.args;
      takes = m.takes;
      splits = ap (λ l. t ∷ l) m.splits;
      handled =
          s.1 m.path
          ∙ below_or-handled (effect e) (command d f below beside) m.path (h, m.takes) m.handled;
      passes = m.passes;
    }
visit-Registered node (command c e null next) t ts h ps s more r =
    let x = executed-handled c t e null next s.0 (s.2.0 refl) in
    let ((g, p), runs, has) = x in
    let (same, passed) = run_leaf-ran g h p ts ps (execute_loop ts node) (sym (rw runs refl) ∙ r) in
    record {
      path = t ∷ [];
      args = ts;
      takes = p;
      splits = refl;
      handled = s.1 [] ∙ has ∙ ap (λ k. some (k, p)) same;
      passes = passed;
    }

helped_ran : (node : Commands) (h : Handler) (ps : List String) → ¬ helped node ≡ ran h ps
helped_ran node h ps e = cc

execute_loop-Registered :
    (line : List String) (node : Commands) (h : Handler) (ps : List String)
    → IsHandled node
    → execute_loop line node ≡ ran h ps
    → Registered node line h ps
unfolding execute_loop
execute_loop-Registered [] node h ps k r = cc
execute_loop-Registered (t ∷ ts) node h ps k r = elim (Bool-cases (is_help t)) [
  | inl e ↦ absurd (helped_ran node h ps (sym (rw e refl) ∙ r))
  | inr e ↦
      visit-Registered node (find_command node t) t ts h ps (find_command-Stopped node t k)
        (λ child kept run. execute_loop-Registered ts child h ps kept run) (sym (rw e refl) ∙ r)
]

new_commands-IsHandled :
    (garbage : Bool) (new : Entry) (ts : List String)
    → new.command_handler ≢ none
    → IsHandled (new_commands garbage new ts)
unfolding new_commands
new_commands-IsHandled garbage new [] k = tt
new_commands-IsHandled garbage new (t ∷ []) k = (λ e. k, tt, tt)
new_commands-IsHandled garbage new (t ∷ u ∷ us) k =
    (λ e. absurd cc, new_commands-IsHandled garbage new (u ∷ us) k, tt)

either_full :
    (b : Bool) (c : String) (d e : Entry) (left right below beside : Commands)
    → (if b then command c d left right else command c e below beside) ≢ null
either_full true c d e left right below beside z = cc
either_full false c d e left right below beside z = cc

register_at-full :
    (garbage : Bool) (new : Entry) (node : Commands) (t : String) (ts : List String)
    → register_at garbage new node (t ∷ ts) ≢ null
unfolding register_at new_commands
register_at-full garbage new null t ts e = cc
register_at-full garbage new (command c d child next) t ts e =
    either_full (str_eq c t) c _ d _ next child _ e

assigned-handled :
    (garbage : Bool) (new e : Entry) (child : Commands) (ts : List String)
    → new.command_handler ≢ none
    → register_at garbage new child ts ≡ null
    → (assigned ts new e).command_handler ≢ none
assigned-handled garbage new e child [] k z = k
assigned-handled garbage new e child (u ∷ us) k z =
    absurd (register_at-full garbage new child u us z)

register_at-IsHandled :
    (garbage : Bool) (new : Entry) (node : Commands) (ts : List String)
    → new.command_handler ≢ none
    → IsHandled node
    → IsHandled (register_at garbage new node ts)
unfolding register_at
register_at-IsHandled garbage new node [] k h = h
register_at-IsHandled garbage new null (t ∷ ts) k h = new_commands-IsHandled garbage new (t ∷ ts) k
register_at-IsHandled garbage new (command c e child next) (t ∷ ts) k h =
    elim (Bool-cases (str_eq c t)) [
      | inl agree ↦ rw agree (
        assigned-handled garbage new e child ts k,
        register_at-IsHandled garbage new child ts k h.1,
        h.2,
      )
      | inr differ ↦ rw differ (h.0, h.1, register_at-IsHandled garbage new next (t ∷ ts) k h.2)
    ]

-- Every mode's node.
abbrev pub AllHandled : Cli → Type 0
AllHandled c = (mode : Option ℕ) → IsHandled (node_of c mode)

-- Registering a command with a handler keeps it true, in every mode, that each command without
-- children has a handler.
pub register_command-AllHandled :
    (garbage : Bool) (mode : Option ℕ) (tokens : List String) (new : Entry) (c : Cli)
    → new.command_handler ≢ none
    → AllHandled c
    → AllHandled (register_command garbage mode tokens new c)
unfolding register_command
register_command-AllHandled garbage none tokens new c k h none =
    register_at-IsHandled garbage new c.globalmode tokens k (h none)
register_command-AllHandled garbage none tokens new c k h (some n) = h (some n)
register_command-AllHandled garbage (some m) tokens new c k h none = h none
register_command-AllHandled garbage (some m) tokens new c k h (some n) =
    mode_lem (n == m) (register_at-IsHandled garbage new (c.modes m).commands tokens k (h (some m)))
  where
    mode_lem :
        (b : Bool)
        → IsHandled (register_at garbage new (c.modes m).commands tokens)
        → IsHandled
            (if b
              then record (c.modes n) {
                commands = register_at garbage new (c.modes m).commands tokens;
              }
              else c.modes n).commands
    mode_lem true grown = grown
    mode_lem false grown = h (some n)

-- The answers to a line: the reply of the handler registered for its first tokens, called with the
-- rest of the line or with nothing; the help of a node; or the prompt alone.
pub data Answered (c : Cli) (mode : Option ℕ) (data_ptr : ℕ) (line : List String) (r : Reply)
    : Type 0 where
  by_handler :
      (h : Handler) (parameters : List String)
      → Registered (node_of c mode) line h parameters
      → r ≡ with_prompt c (h parameters data_ptr)
      → Answered c mode data_ptr line r
  by_help :
      (node : Commands)
      → r ≡ record {
        finished = 0;
        mode = mode;
        data_ptr = 0;
        feedback = cli_help node ++ cli_mode_prompt c mode;
      }
      → Answered c mode data_ptr line r
  by_prompt :
      r ≡ record { finished = 0; mode = mode; data_ptr = 0; feedback = cli_mode_prompt c mode }
      → Answered c mode data_ptr line r
  by_nothing :
      node_of c mode ≡ null
      → r ≡ record { finished = 0; mode = mode; data_ptr = 0; feedback = [] }
      → Answered c mode data_ptr line r

-- When every command without children has a handler, a line is answered by the handler of a registered
-- path that the line begins with, called with the rest of the line if it takes parameters and with
-- none otherwise, or by the help of a node, or by the prompt, or by nothing when the mode has no
-- commands; unless the handler says otherwise the client's mode stays as it is.
pub execute_commands-Answered :
    (c : Cli) (mode : Option ℕ) (data_ptr : ℕ) (line : List String)
    → AllHandled c
    → Answered c mode data_ptr line (execute_commands c mode data_ptr line)
unfolding execute_commands with_prompt
execute_commands-Answered c mode data_ptr line k = node_lem (node_of c mode) refl
  where
    outcome_lem :
        (node : Commands) (o : Outcome)
        → node ≡ node_of c mode
        → execute_loop line node ≡ o
        → Answered c mode data_ptr line (with_prompt c (reply_of mode data_ptr o))
    outcome_lem node (ran h ps) at e =
        by_handler h ps
          (execute_loop-Registered line (node_of c mode) h ps (k mode)
            (ap (execute_loop line) (sym at) ∙ e))
          refl
    outcome_lem node (helped help) at e = by_help help refl
    outcome_lem node ended at e = by_prompt refl

    node_lem :
        (node : Commands)
        → node ≡ node_of c mode
        → Answered c mode data_ptr line (elim node [
          | null ↦ record { finished = 0; mode = mode; data_ptr = 0; feedback = [] }
          | command n e child next ↦
              with_prompt c (reply_of mode data_ptr (execute_loop line (command n e child next)))
        ])
    node_lem null at = by_nothing (sym at) refl
    node_lem (command n e child next) at =
        outcome_lem (command n e child next) (execute_loop line (command n e child next)) at refl
