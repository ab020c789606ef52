-- ===== src/Cli/Registry.antt =====
-- opennopd/subsystems/clicommands.c: the tree of commands as a finite map from paths of tokens to
-- handlers, which `register_command` updates at one path.
use Prim.Native.String.{String}
use text.Mathlib.Text.{◌==◌ as str_eq}
use text.Mathlib.TextEquality.{eq_iff}
use mathlib.Core.Bool.{true≢false}
use opennop.Prelude.{
  ℕ, ◌≡◌, refl, sym, ◌∙◌, ap, inl, inr, Bool, true, false, ◌&&◌, Option, none, some, List, [], ◌∷◌,
  if◌then◌else◌, Bool-cases, ◌==◌, ==_iff,
}
use opennop.Cli.{
  Handler, Entry, Commands, null, command, Cli, node_of, allocate_command, assigned, new_commands,
  register_at, register_command,
}

abbrev pub effect : Entry → Option (Handler × Bool)
effect e = elim e.command_handler [ none ↦ none | some h ↦ some (h, e.hasparams) ]

abbrev pub paths_eq : List String → List String → Bool
paths_eq [] [] = true
paths_eq [] (_ ∷ _) = false
paths_eq (_ ∷ _) [] = false
paths_eq (a ∷ xs) (b ∷ ys) = str_eq a b && paths_eq xs ys

-- The handler at a path: the abstract view of a node.
abbrev pub below_or :
    Option (Handler × Bool) → List String → Option (Handler × Bool) → Option (Handler × Bool)
below_or here [] below = here
below_or here (_ ∷ _) below = below

unfoldable pub handler_at : Commands → List String → Option (Handler × Bool)
handler_at null path = none
handler_at (command c e child next) [] = none
handler_at (command c e child next) (token ∷ path) =
    let below = handler_at child path in
    let beside = handler_at next (token ∷ path) in
    if str_eq c token then below_or (effect e) path below else beside

pub str_eq-true : (a b : String) → a ≡ b → str_eq a b ≡ true
str_eq-true a b e = (eq_iff a b).1 e

pub handler_at-nil : (node : Commands) → handler_at node [] ≡ none
unfolding handler_at
handler_at-nil null = refl
handler_at-nil (command c e child next) = refl

below-new :
    (garbage : Bool) (new : Entry) (ts path : List String) (below : Option (Handler × Bool))
    → below ≡ (if paths_eq ts path then (elim ts [ [] ↦ none | _ ∷ _ ↦ effect new ]) else none)
    → below_or (effect (assigned ts new (allocate_command garbage))) path below
      ≡ (if paths_eq ts path then effect new else none)
unfolding allocate_command
below-new garbage new [] [] below h = refl
below-new garbage new [] (u ∷ path) below h = h
below-new garbage new (t ∷ ts) [] below h = refl
below-new garbage new (t ∷ ts) (u ∷ path) below h = h

new_commands-handler_at :
    (garbage : Bool) (new : Entry) (ts path : List String)
    → handler_at (new_commands garbage new ts) path
      ≡ (if paths_eq ts path then (elim ts [ [] ↦ none | _ ∷ _ ↦ effect new ]) else none)
unfolding new_commands handler_at
new_commands-handler_at garbage new [] [] = refl
new_commands-handler_at garbage new [] (u ∷ path) = refl
new_commands-handler_at garbage new (t ∷ ts) [] = refl
new_commands-handler_at garbage new (t ∷ ts) (u ∷ path) = elim (Bool-cases (str_eq t u)) [
  | inl e ↦ rw e (
      below-new garbage new ts path (handler_at (new_commands garbage new ts) path)
        (new_commands-handler_at garbage new ts path))
  | inr e ↦ rw e
]

below-found :
    (new e : Entry) (ts path : List String) (below old : Option (Handler × Bool))
    → below ≡ (if paths_eq ts path then (elim ts [ [] ↦ old | _ ∷ _ ↦ effect new ]) else old)
    → below_or (effect (assigned ts new e)) path below
      ≡ (if paths_eq ts path then effect new else below_or (effect e) path old)
below-found new e [] [] below old h = refl
below-found new e [] (u ∷ path) below old h = h
below-found new e (t ∷ ts) [] below old h = refl
below-found new e (t ∷ ts) (u ∷ path) below old h = h

nil_eq :
    (x : Option (Handler × Bool)) (path : List String) (old : Option (Handler × Bool))
    → x ≡ old
    → x ≡ (if paths_eq [] path then old else old)
nil_eq x [] old h = h
nil_eq x (u ∷ path) old h = h

pub str_eq-cong : (a b u : String) → str_eq a b ≡ true → str_eq b u ≡ str_eq a u
str_eq-cong a b u h = ap (λ x. str_eq x u) (sym ((eq_iff a b).0 h))

str_eq-other : (a b u : String) → str_eq a b ≡ false → str_eq a u ≡ true → str_eq b u ≡ false
str_eq-other a b u differ agree = elim (Bool-cases (str_eq b u)) [
  | inl e ↦
      absurd (
        true≢false (sym (str_eq-true a b ((eq_iff a u).0 agree ∙ sym ((eq_iff b u).0 e))) ∙ differ))
  | inr e ↦ e
]

pub register_at-handler_at :
    (garbage : Bool) (new : Entry) (node : Commands) (ts path : List String)
    → handler_at (register_at garbage new node ts) path ≡ (
        if paths_eq ts path
        then (elim ts [ [] ↦ handler_at node path | _ ∷ _ ↦ effect new ])
        else handler_at node path)
unfolding register_at handler_at
register_at-handler_at garbage new null [] path = nil_eq _ path _ refl
register_at-handler_at garbage new (command c e child next) [] path = nil_eq _ path _ refl
register_at-handler_at garbage new null (t ∷ ts) path =
    new_commands-handler_at garbage new (t ∷ ts) path
register_at-handler_at garbage new (command c e child next) (t ∷ ts) [] = handler_at-nil _
register_at-handler_at garbage new (command c e0 child next) (t ∷ ts) (u ∷ path) =
    elim (Bool-cases (str_eq c t)) [
      | inl same ↦ rw same (elim (Bool-cases (str_eq c u)) [
        | inl e ↦
            rw (str_eq-cong c t u same, e)
              (below-found new e0 ts path _ _ (register_at-handler_at garbage new child ts path))
        | inr e ↦ rw (str_eq-cong c t u same, e) refl
      ])
      | inr other ↦ rw other (elim (Bool-cases (str_eq c u)) [
        | inl e ↦ rw (e, str_eq-other c t u other e) refl
        | inr e ↦ rw e (register_at-handler_at garbage new next (t ∷ ts) (u ∷ path))
      ])
    ]

-- The map of a whole interface: by mode and path.
abbrev pub modes_eq : Option ℕ → Option ℕ → Bool
modes_eq none none = true
modes_eq none (some _) = false
modes_eq (some _) none = false
modes_eq (some m) (some n) = n == m

unfoldable pub registry : Cli → Option ℕ → List String → Option (Handler × Bool)
unfolding handler_at
registry c mode path = handler_at (node_of c mode) path

-- Registering a command under a path of at least one token updates the interface's map from modes and
-- paths to handlers at that mode and path, and nowhere else: a path that was registered before gets
-- the new handler, and every other path of every mode keeps its own. The uninitialised
-- `hidden` of the commands on the way is arbitrary.
pub register_command-registry :
    (garbage : Bool) (mode m : Option ℕ) (token : String) (tokens path : List String) (new : Entry)
    (c : Cli)
    → registry (register_command garbage mode (token ∷ tokens) new c) m path ≡ (
        if modes_eq mode m && paths_eq (token ∷ tokens) path then effect new else registry c m path)
unfolding registry register_command
register_command-registry garbage none none token tokens path new c =
    register_at-handler_at garbage new c.globalmode (token ∷ tokens) path
register_command-registry garbage none (some n) token tokens path new c = refl
register_command-registry garbage (some m) none token tokens path new c = refl
register_command-registry garbage (some m) (some n) token tokens path new c =
    mode_lem (n == m) (λ e. (==_iff n m).0 e)
  where
    mode_lem :
        (b : Bool)
        → (b ≡ true → n ≡ m)
        → handler_at
            (if b
              then record (c.modes n) {
                commands = register_at garbage new (c.modes m).commands (token ∷ tokens);
              }
              else c.modes n).commands
            path
          ≡ (if b && paths_eq (token ∷ tokens) path
              then effect new
              else handler_at (c.modes n).commands path)
    mode_lem true h =
        rw (h refl) (register_at-handler_at garbage new (c.modes m).commands (token ∷ tokens) path)
    mode_lem false h = refl
