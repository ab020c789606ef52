-- ===== src/Cli.antt =====
-- opennopd/subsystems/clicommands.c with include/clicommands.h, and the loop of
-- opennopd/subsystems/climanager.c: the tree of commands, its registration and its execution, and the
-- numbers printed by `bytestostringbps`. A line is the list of its tokens (`strtok_r`); a mode other
-- than the global one is the address of its head; a pointer to a command is the list that starts
-- there. What a handler and the help send to the client is part of the reply.
pub mod Registry
pub mod Execute
pub mod Handled
use Prim.Native.String.{String}
use text.Mathlib.Text.{◌==◌ as str_eq}
use opennop.Prelude.{
  ℕ, ◌+◌, ◌-◌, ◌*◌, ◌/◌, ◌%◌, ◌^◌, Bool, true, false, ◌||◌, Option, none, some, List, [], ◌∷◌, ◌++◌,
  ◌==◌, ltb, leb, if◌then◌else◌,
}

pub data Feedback : Type 0 where
  prompt said : String → Feedback
  entry : ℕ → String → Feedback

-- `struct commandresult`, with the feedback sent before it is returned; the data is an address.
pub record Reply : Type 0 where
  pub finished : ℕ
  pub mode : Option ℕ
  pub data_ptr : ℕ
  pub feedback : List Feedback

-- `t_commandfunction`: the parameters, and the data of the mode.
abbrev pub Handler : Type 0
Handler = List String → ℕ → Reply

-- The fields that the registration of a command sets.
pub record Entry : Type 0 where
  pub command_handler : Option Handler
  pub hasparams : Bool
  pub hidden : Bool

-- A list of commands: the first one's token, its fields, its children, and the next commands.
pub data Commands : Type 0 where
  null : Commands
  command : String → Entry → Commands → Commands → Commands

-- `allocate_command`, which leaves `hidden` as `malloc` returned it.
unfoldable pub allocate_command : Bool → Entry
allocate_command garbage = record { command_handler = none; hasparams = false; hidden = garbage }

unfoldable pub find_command : Commands → String → Commands
find_command null name = null
find_command (command c e child next) name =
    if str_eq c name then command c e child next else find_command next name

-- The fields of a command on the path: the last token's are set.
abbrev pub assigned : List String → Entry → Entry → Entry
assigned [] new e = new
assigned (_ ∷ _) new e = e

module _ (garbage : Bool) where
  -- The commands made for the tokens that no node has.
  unfoldable pub new_commands : Entry → List String → Commands
  unfolding allocate_command
  new_commands new [] = null
  new_commands new (token ∷ tokens) =
      command token (assigned tokens new (allocate_command garbage)) (new_commands new tokens) null

  -- The loop over the tokens: the search of the node, or a command at its end, then its children.
  unfoldable pub register_at : Entry → Commands → List String → Commands
  unfolding new_commands
  register_at new node [] = node
  register_at new null (token ∷ tokens) = new_commands new (token ∷ tokens)
  register_at new (command c e child next) (token ∷ tokens) =
      if str_eq c token
      then command c (assigned tokens new e) (register_at new child tokens) next
      else command c e child (register_at new next (token ∷ tokens))

-- `struct command_head`.
pub record Mode : Type 0 where
  pub prompt : String
  pub commands : Commands

-- The global mode and those of the subsystems, by address.
pub record Cli : Type 0 where
  pub globalmode : Commands
  pub modes : ℕ → Mode

abbrev pub node_of : Cli → Option ℕ → Commands
node_of c none = c.globalmode
node_of c (some m) = (c.modes m).commands

unfoldable pub register_command : Bool → Option ℕ → List String → Entry → Cli → Cli
unfolding register_at
register_command garbage none tokens new c = record c {
  globalmode = register_at garbage new c.globalmode tokens;
}
register_command garbage (some m) tokens new c =
    let grown = register_at garbage new (c.modes m).commands tokens in
    let old = c.modes in
    record c { modes = λ p. if p == m then record (old p) { commands = grown } else old p }

-- The loop of `cli_help`, from the count of the next line.
unfoldable pub help_loop : ℕ → Commands → List Feedback
help_loop count null = []
help_loop count (command c e child next) =
    if e.hidden then help_loop count next else entry count c ∷ help_loop (count + 1) next

unfoldable pub cli_help : Commands → List Feedback
unfolding help_loop
cli_help node = help_loop 1 node

-- The innermost loop: the first command from here on that has the token and a handler.
unfoldable pub executed : Commands → String → Option (Handler × Bool)
executed null token = none
executed (command c e child next) token =
    let rest = executed next token in
    if str_eq c token
    then elim e.command_handler [ none ↦ rest | some h ↦ some (h, e.hasparams) ]
    else rest

-- How the loop over the tokens ends.
pub data Outcome : Type 0 where
  ran : Handler → List String → Outcome
  helped : Commands → Outcome
  ended : Outcome

abbrev pub is_help : String → Bool
is_help token = str_eq token "help" || str_eq token "?"

-- One token: `after node` is the rest of the loop, from that node on.
abbrev pub run_leaf : Option (Handler × Bool) → List String → Outcome → Outcome
run_leaf none tokens after = after
run_leaf (some (h, true)) tokens after = ran h tokens
run_leaf (some (h, false)) tokens after = ran h []

abbrev pub visit : Commands → Commands → String → List String → (Commands → Outcome) → Outcome
visit node null token tokens after = helped node
visit node (command c e (command d f below beside) next) token tokens after =
    after (command d f below beside)
visit node (command c e null next) token tokens after =
    run_leaf (executed (command c e null next) token) tokens (after node)

-- The loop over the tokens.
unfoldable pub execute_loop : List String → Commands → Outcome
unfolding find_command executed
execute_loop [] node = ended
execute_loop (token ∷ tokens) node =
    let after = execute_loop tokens in
    if is_help token then helped node else visit node (find_command node token) token tokens after

-- `cli_mode_prompt`.
unfoldable pub cli_mode_prompt : Cli → Option ℕ → List Feedback
cli_mode_prompt c none = prompt "opennopd# " ∷ []
cli_mode_prompt c (some m) = prompt (c.modes m).prompt ∷ []

-- The prompt after a reply that does not end the connection.
unfoldable pub with_prompt : Cli → Reply → Reply
unfolding cli_mode_prompt
with_prompt c r =
    if r.finished == 1 then r else record r { feedback = r.feedback ++ cli_mode_prompt c r.mode }

abbrev pub reply_of : Option ℕ → ℕ → Outcome → Reply
reply_of mode data_ptr (ran h parameters) = h parameters data_ptr
reply_of mode data_ptr (helped node) = record {
  finished = 0;
  mode = mode;
  data_ptr = 0;
  feedback = cli_help node;
}
reply_of mode data_ptr ended = record { finished = 0; mode = mode; data_ptr = 0; feedback = [] }

unfoldable pub execute_commands : Cli → Option ℕ → ℕ → List String → Reply
unfolding execute_loop cli_help with_prompt
execute_commands c mode data_ptr tokens = elim (node_of c mode) [
  | null ↦ record { finished = 0; mode = mode; data_ptr = 0; feedback = [] }
  | command n e child next ↦
      with_prompt c (reply_of mode data_ptr (execute_loop tokens (command n e child next)))
]

-- The loop of `client_handler`, over the lines that `recv` returns: the replies, in order.
unfoldable pub client_handler : Cli → Option ℕ → ℕ → List (List String) → List Reply
unfolding execute_commands
client_handler c mode data_ptr [] = []
client_handler c mode data_ptr (line ∷ lines) =
    let reply = execute_commands c mode data_ptr line in
    let more = client_handler c reply.mode reply.data_ptr lines in
    if reply.finished == 0 then reply ∷ more else reply ∷ []

-- The text of `bytestostringbps`: a number of bits, a negative one, or a unit with its two numbers.
pub data Rate : Type 0 where
  bps minus_bps : ℕ → Rate
  kbps mbps gbps : ℕ → ℕ → Rate

-- `int bits = count * 8`: the product wraps at 2 ^ 32, and is negative from 2 ^ 31 on.
unfoldable pub bytestostringbps : ℕ → Rate
bytestostringbps count =
    let bits = count * 8 % 2 ^ 32 in
    if leb (2 ^ 31) bits
    then minus_bps (2 ^ 32 - bits)
    else if ltb bits 1024
    then bps bits
    else if leb 1024 (bits / 1024 / 1024)
    then gbps (bits / 1024 / 1024 / 1024) (bits / 1024 / 1024 % 1024 / 10)
    else if leb 1024 (bits / 1024)
    then mbps (bits / 1024 / 1024) (bits / 1024 % 1024 / 10)
    else kbps (bits / 1024) (bits % 1024 / 10)
