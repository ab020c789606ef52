-- ===== src/Cli/Execute.antt =====
-- opennopd/subsystems/clicommands.c: what `execute_commands` runs for a line.
use Prim.Native.String.{String}
use text.Mathlib.Text.{◌==◌ as str_eq}
use mathlib.Core.Option.{none-ne-some}
use opennop.Prelude.{
  ℕ, ◌≡◌, refl, sym, ◌∙◌, ap, inl, inr, Bool, true, false, Option, none, some, List, [], ◌∷◌, ◌++◌,
  if◌then◌else◌, Bool-cases, ==_iff,
}
use opennop.Cli.{
  Handler, Entry, Commands, null, command, Cli, node_of, new_commands, register_at,
  register_command, find_command, executed, Outcome, ran, is_help, visit, execute_loop, with_prompt,
  reply_of, execute_commands,
}
use opennop.Cli.Registry.{
  effect, paths_eq, modes_eq, registry, register_command-registry, below_or, handler_at,
  handler_at-nil, str_eq-true,
}

abbrev child_or : Commands → List String → Commands → Commands
child_or child [] below = child
child_or child (_ ∷ _) below = below

-- The children of the command at a path.
unfoldable pub children_at : Commands → List String → Commands
children_at null path = null
children_at (command c e child next) [] = null
children_at (command c e child next) (token ∷ path) =
    let below = children_at child path in
    let beside = children_at next (token ∷ path) in
    if str_eq c token then child_or child path below else beside

-- No token of the path asks for help.
abbrev pub IsPlain : List String → Type 0
IsPlain [] = Unit
IsPlain (t ∷ ts) = (is_help t ≡ false) × IsPlain ts

abbrev pub given : Bool → List String → List String
given true args = args
given false args = []

-- Where the search for a token of a registered path stops: a command with the token, whose fields
-- and children give the handler and the children at the path.
record Stop (node : Commands) (t : String) (ts : List String) (found : Option (Handler × Bool))
    : Type 0 where
  c : String
  e : Entry
  child : Commands
  next : Commands
  at : find_command node t ≡ command c e child next
  same : str_eq c t ≡ true
  handled : below_or (effect e) ts (handler_at child ts) ≡ found
  children : children_at node (t ∷ ts) ≡ child_or child ts (children_at child ts)

Stop-of :
    (node : Commands) (t : String) (ts : List String) (h : Handler) (p : Bool)
    → handler_at node (t ∷ ts) ≡ some (h, p)
    → Stop node t ts (some (h, p))
unfolding find_command handler_at children_at
Stop-of null t ts h p found = absurd (none-ne-some _ found)
Stop-of (command c e child next) t ts h p found = elim (Bool-cases (str_eq c t)) [
  | inl agree ↦ record {
    c = c;
    e = e;
    child = child;
    next = next;
    at = rw agree refl;
    same = agree;
    handled = sym (rw agree refl) ∙ found;
    children = rw agree refl;
  }
  | inr differ ↦
      let s = Stop-of next t ts h p (sym (rw differ refl) ∙ found) in
      record {
        c = s.c;
        e = s.e;
        child = s.child;
        next = s.next;
        at = rw differ s.at;
        same = s.same;
        handled = s.handled;
        children = rw differ s.children;
      }
]

executed-effect :
    (c t : String) (e : Entry) (child next : Commands) (f : Handler × Bool)
    → str_eq c t ≡ true
    → effect e ≡ some f
    → executed (command c e child next) t ≡ some f
unfolding executed
executed-effect c t e child next f same h = rw same (handler_lem e.command_handler h)
  where
    handler_lem :
        (o : Option Handler)
        → (elim o [ none ↦ none | some g ↦ some (g, e.hasparams) ]) ≡ some f
        → (elim o [ none ↦ executed next t | some g ↦ some (g, e.hasparams) ]) ≡ some f
    handler_lem none k = absurd (none-ne-some _ k)
    handler_lem (some g) k = k

visit-leaf :
    (node child next : Commands) (c t : String) (e : Entry) (args : List String) (h : Handler)
    (p : Bool) (after : Commands → Outcome)
    → child ≡ null
    → str_eq c t ≡ true
    → effect e ≡ some (h, p)
    → visit node (command c e child next) t args after ≡ ran h (given p args)
visit-leaf node (command n e' below beside) next c t e args h p after leaf same k = cc
visit-leaf node null next c t e args h true after leaf same k =
    rw (executed-effect c t e null next _ same k) refl
visit-leaf node null next c t e args h false after leaf same k =
    rw (executed-effect c t e null next _ same k) refl

visit-inner :
    (node child next : Commands) (c t : String) (e : Entry) (args us : List String)
    (f : Handler × Bool) (after : Commands → Outcome)
    → handler_at child us ≡ some f
    → visit node (command c e child next) t args after ≡ after child
unfolding handler_at
visit-inner node null next c t e args us f after h = absurd (none-ne-some _ h)
visit-inner node (command n e' below beside) next c t e args us f after h = refl

execute_loop-ran :
    (node : Commands) (path args : List String) (h : Handler) (p : Bool)
    → handler_at node path ≡ some (h, p)
    → IsPlain path
    → children_at node path ≡ null
    → execute_loop (path ++ args) node ≡ ran h (given p args)
unfolding execute_loop
execute_loop-ran node [] args h p found plain leaf =
    absurd (none-ne-some _ (sym (handler_at-nil node) ∙ found))
execute_loop-ran node (t ∷ []) args h p found plain leaf =
    let s = Stop-of node t [] h p found in
    rw (plain.0, s.at)
      (visit-leaf node s.child s.next s.c t s.e args h p (execute_loop args) (sym s.children ∙ leaf)
        s.same s.handled)
execute_loop-ran node (t ∷ u ∷ us) args h p found plain leaf =
    let s = Stop-of node t (u ∷ us) h p found in
    rw
      (
        plain.0,
        s.at,
        visit-inner node s.child s.next s.c t s.e ((u ∷ us) ++ args) (u ∷ us) (h, p)
            (execute_loop ((u ∷ us) ++ args)) s.handled,
      )
      (execute_loop-ran s.child (u ∷ us) args h p s.handled plain.1 (sym s.children ∙ leaf))

execute_commands-ran :
    (c : Cli) (mode : Option ℕ) (data_ptr : ℕ) (path args : List String) (h : Handler) (p : Bool)
    → registry c mode path ≡ some (h, p)
    → IsPlain path
    → children_at (node_of c mode) path ≡ null
    → execute_commands c mode data_ptr (path ++ args) ≡ with_prompt c (h (given p args) data_ptr)
unfolding execute_commands registry handler_at
execute_commands-ran c mode data_ptr path args h p found plain leaf =
    node_lem (node_of c mode) found
      (execute_loop-ran (node_of c mode) path args h p found plain leaf)
  where
    node_lem :
        (node : Commands)
        → handler_at node path ≡ some (h, p)
        → execute_loop (path ++ args) node ≡ ran h (given p args)
        → (elim node [
          | null ↦ record { finished = 0; mode = mode; data_ptr = 0; feedback = [] }
          | command n e child next ↦
              with_prompt c
                (reply_of mode data_ptr (execute_loop (path ++ args) (command n e child next)))
        ])
          ≡ with_prompt c (h (given p args) data_ptr)
    node_lem null k r = absurd (none-ne-some _ k)
    node_lem (command n e child next) k r = ap (λ o. with_prompt c (reply_of mode data_ptr o)) r

children_at-new_commands :
    (garbage : Bool) (new : Entry) (t : String) (ts : List String)
    → children_at (new_commands garbage new (t ∷ ts)) (t ∷ ts) ≡ null
unfolding children_at new_commands
children_at-new_commands garbage new t [] = rw (str_eq-true t t refl) refl
children_at-new_commands garbage new t (u ∷ us) =
    rw (str_eq-true t t refl) (children_at-new_commands garbage new u us)

children_at-register_at :
    (garbage : Bool) (new : Entry) (node : Commands) (t : String) (ts : List String)
    → children_at (register_at garbage new node (t ∷ ts)) (t ∷ ts) ≡ children_at node (t ∷ ts)
unfolding children_at register_at
children_at-register_at garbage new null t ts = children_at-new_commands garbage new t ts
children_at-register_at garbage new (command c e child next) t [] = elim (Bool-cases (str_eq c t)) [
  | inl same ↦ rw (same, same) refl
  | inr other ↦ rw (other, other) (children_at-register_at garbage new next t [])
]
children_at-register_at garbage new (command c e child next) t (u ∷ us) =
    elim (Bool-cases (str_eq c t)) [
      | inl same ↦ rw (same, same) (children_at-register_at garbage new child u us)
      | inr other ↦ rw (other, other) (children_at-register_at garbage new next t (u ∷ us))
    ]

paths_eq_self : (path : List String) → paths_eq path path ≡ true
paths_eq_self [] = refl
paths_eq_self (t ∷ ts) = rw (str_eq-true t t refl) (paths_eq_self ts)

modes_eq_self : (mode : Option ℕ) → modes_eq mode mode ≡ true
modes_eq_self none = refl
modes_eq_self (some m) = (==_iff m m).1 refl

node_of-register_command :
    (garbage : Bool) (mode : Option ℕ) (tokens : List String) (new : Entry) (c : Cli)
    → node_of (register_command garbage mode tokens new c) mode
      ≡ register_at garbage new (node_of c mode) tokens
unfolding register_command
node_of-register_command garbage none tokens new c = refl
node_of-register_command garbage (some m) tokens new c = rw (node_of, modes_eq_self (some m)) refl

-- After a command is registered under a path of tokens, none of them "help" or "?", a line of that
-- mode that begins with the path calls its handler with the rest of the line as the parameters, or
-- with none if the command takes no parameters, and the mode's data; the reply is the handler's, with
-- the prompt of the mode it enters unless it ends the connection. This needs that no longer path
-- through this one was registered before.
pub execute_commands-register_command :
    (garbage p hides : Bool) (mode : Option ℕ) (data_ptr : ℕ) (token : String)
    (tokens args : List String) (h : Handler) (c : Cli)
    → IsPlain (token ∷ tokens)
    → children_at (node_of c mode) (token ∷ tokens) ≡ null
    → let new : Entry = record { command_handler = some h; hasparams = p; hidden = hides } in
      let grown = register_command garbage mode (token ∷ tokens) new c in
      execute_commands grown mode data_ptr ((token ∷ tokens) ++ args)
      ≡ with_prompt grown (h (given p args) data_ptr)
execute_commands-register_command garbage p hides mode data_ptr token tokens args h c plain leaf =
    let new : Entry = record { command_handler = some h; hasparams = p; hidden = hides } in
    let path = token ∷ tokens in
    execute_commands-ran (register_command garbage mode path new c) mode data_ptr path args h p
      (rw
        (
          register_command-registry garbage mode mode token tokens path new c,
          modes_eq_self mode,
          paths_eq_self path,
        )
        refl)
      plain
      (rw (node_of-register_command garbage mode path new c)
        (children_at-register_at garbage new (node_of c mode) token tokens ∙ leaf))
