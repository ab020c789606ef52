-- ===== src/Examples/Console.antt =====
-- The CLI's properties on the commands of one mode.
use Prim.Native.String.{String}
use mathlib.Core.Option.{none-ne-some}
use opennop.Prelude.{◌≡◌, refl, sym, true, false, none, some, List, [], ◌∷◌, ◌&&◌, if◌then◌else◌}
use opennop.Cli.{
  Feedback, said, Handler, Entry, null, Cli, register_command, with_prompt, execute_commands,
  client_handler, cli_mode_prompt, register_at, new_commands, allocate_command, execute_loop,
  find_command, executed,
}
use opennop.Cli.Registry.{effect, paths_eq, modes_eq, registry, register_command-registry}
use opennop.Cli.Execute.{given, children_at, execute_commands-register_command}
use opennop.Cli.Handled.{
  AllHandled, register_command-AllHandled, Answered, execute_commands-Answered,
}

abbrev silent : Cli
silent = record {
  globalmode = null;
  modes = λ m. record { prompt = "opennop->test# "; commands = null };
}

-- A handler that repeats its parameters and stays in the global mode.
abbrev lines : List String → List Feedback
lines [] = []
lines (s ∷ ss) = said s ∷ lines ss

abbrev echo : Handler
echo parameters data_ptr = record {
  finished = 0;
  mode = none;
  data_ptr = data_ptr;
  feedback = lines parameters;
}

abbrev quit : Handler
quit parameters data_ptr = record { finished = 1; mode = none; data_ptr = 0; feedback = [] }

abbrev echoes : Entry
echoes = record { command_handler = some echo; hasparams = true; hidden = false }

abbrev quits : Entry
quits = record { command_handler = some quit; hasparams = false; hidden = false }

abbrev shows : Cli
shows = register_command false none ("show" ∷ "key" ∷ []) echoes silent

abbrev console : Cli
console = register_command false none ("quit" ∷ []) quits shows

silent-AllHandled : AllHandled silent
silent-AllHandled none = tt
silent-AllHandled (some m) = tt

shows-AllHandled : AllHandled shows
shows-AllHandled =
    register_command-AllHandled false none ("show" ∷ "key" ∷ []) echoes silent
      (λ e. none-ne-some _ (sym e)) silent-AllHandled

register_command-registry_example : registry console none ("show" ∷ "key" ∷ []) ≡ (
    if modes_eq none none && paths_eq ("quit" ∷ []) ("show" ∷ "key" ∷ [])
    then effect quits
    else registry shows none ("show" ∷ "key" ∷ []))
register_command-registry_example =
    register_command-registry false none none "quit" [] ("show" ∷ "key" ∷ []) quits shows

execute_commands-register_command_example :
    execute_commands shows none 0 ("show" ∷ "key" ∷ "a" ∷ "b" ∷ [])
    ≡ with_prompt shows (echo (given true ("a" ∷ "b" ∷ [])) 0)
unfolding children_at
execute_commands-register_command_example =
    execute_commands-register_command false true false none 0 "show" ("key" ∷ []) ("a" ∷ "b" ∷ [])
      echo silent (refl, (refl, tt)) refl

execute_commands-Answered_example :
    Answered shows none 0
      ("show" ∷ "key" ∷ "a" ∷ [])
      (execute_commands shows none 0 ("show" ∷ "key" ∷ "a" ∷ []))
execute_commands-Answered_example =
    execute_commands-Answered shows none 0 ("show" ∷ "key" ∷ "a" ∷ []) shows-AllHandled

-- A line that ends at a node with children runs nothing, and a reply that ends the connection ends
-- the lines.
lines_run :
    client_handler console none 0 (("show" ∷ []) ∷ ("quit" ∷ []) ∷ ("show" ∷ "key" ∷ []) ∷ [])
    ≡ record { finished = 0; mode = none; data_ptr = 0; feedback = cli_mode_prompt console none }
      ∷ quit [] 0
      ∷ []
unfolding client_handler execute_commands register_command register_at new_commands allocate_command
    execute_loop find_command executed with_prompt cli_mode_prompt
lines_run = refl
