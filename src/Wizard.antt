-- ===== src/Wizard.antt =====
-- src/bin/wizard.rs: the dialogue that builds the command line of the node. A dialogue reads the lines
-- that are typed; past their end a line is empty. What it prints is left out, but for the command.
pub mod Shell
pub mod Choice
use kernel_node.Prelude.{
  ℕ, Bool, true, false, not, ◌&&◌, ◌||◌, Option, none, some, List, ◌∷◌, ◌++◌, map, arith,
  if◌then◌else◌, ◌==◌, nat_eq, [],
}
use kernel_node.Prelude.Text.{codes, trim, is_alphanumeric, to_lowercase, all, join, parse_usize}
use kernel_node.Prelude.Slices.{same_bytes}

abbrev pub Lines : Type 0
Lines = List (List ℕ)

abbrev pub Dialogue {ℓ} : Type ℓ → Type ℓ
Dialogue A = Lines → A × Lines

infixl 10 ◌>>=◌
abbrev pub ◌>>=◌ {ℓ κ} : {A : Type ℓ} {B : Type κ} → Dialogue A → (A → Dialogue B) → Dialogue B
(m >>= f) = λ lines. let (a, rest) = m lines in f a rest

abbrev pub pure {ℓ} : {A : Type ℓ} → A → Dialogue A
pure a = λ lines. (a, lines)

unfoldable pub read_line : Dialogue (List ℕ)
unfolding trim
read_line [] = ([], [])
read_line (line ∷ lines) = (trim line, lines)

abbrev pub is_empty {ℓ} : {A : Type ℓ} → List A → Bool
is_empty [] = true
is_empty (x ∷ xs) = false

unfoldable pub prompt_with_default : List ℕ → Dialogue (List ℕ)
unfolding read_line
prompt_with_default default = do
  answer ← read_line
  pure (if is_empty answer then default else answer)

unfoldable pub prompt_optional : Dialogue (Option (List ℕ))
unfolding read_line
prompt_optional = do answer ← read_line; pure (if is_empty answer then none else some answer)

-- What an answer says, if it is one.
unfoldable pub yes_no : List ℕ → Option Bool
unfolding same_bytes
yes_no answer =
    let lower = map to_lowercase answer in
    if same_bytes lower (codes "y") || same_bytes lower (codes "yes")
    then some true
    else if same_bytes lower (codes "n") || same_bytes lower (codes "no")
    then some false
    else none

unfoldable pub prompt_yes_no : Bool → Dialogue Bool
unfolding yes_no trim
prompt_yes_no default [] = (default, [])
prompt_yes_no default (line ∷ lines) =
    let again = prompt_yes_no default lines in
    if is_empty (trim line)
    then (default, lines)
    else (elim (yes_no (trim line)) [ some answer ↦ (answer, lines) | none ↦ again ])

-- The characters that need no quotes.
unfoldable pub is_safe : ℕ → Bool
is_safe c = is_alphanumeric c || not (all (λ d. not (c == d)) (codes "-_./=:,@+~"))

-- `replace('\'', r"'\''")`
unfoldable pub escape_quotes : List ℕ → List ℕ
escape_quotes [] = []
escape_quotes (c ∷ arg) =
    let rest = escape_quotes arg in if c == b'\'' then codes "'\\''" ++ rest else c ∷ rest

unfoldable pub shell_quote : List ℕ → List ℕ
unfolding is_safe escape_quotes all
shell_quote arg =
    if not (is_empty arg) && all is_safe arg
    then arg
    else b'\'' ∷ (escape_quotes arg ++ (b'\'' ∷ []))

-- The answers of `main`.
pub record Answers : Type 0 where
  pub network : List ℕ
  pub datadir : List ℕ
  pub connect : Option (List ℕ)
  pub sp_keys_file : Option (List ℕ)
  pub proxy : Option (List ℕ)
  pub daemon : Bool

-- The path of a file to import, asked for until it can be resolved; `resolve` stands for the home
-- directory, the working directory and `canonicalize`.
unfoldable pub prompt_keys_file : (List ℕ → Option (List ℕ)) → Dialogue (Option (List ℕ))
unfolding trim
prompt_keys_file resolve [] = (none, [])
prompt_keys_file resolve (line ∷ lines) =
    let again = prompt_keys_file resolve lines in
    if is_empty (trim line)
    then (none, lines)
    else (elim (resolve (trim line)) [ some path ↦ (some path, lines) | none ↦ again ])

abbrev pub proxy_address : Dialogue (Option (List ℕ))
proxy_address = do proxy ← prompt_with_default (codes "127.0.0.1:9050"); pure (some proxy)

-- The questions of `main`, but for the first, whose answer is the network.
unfoldable pub questions : (List ℕ → Option (List ℕ)) → List ℕ → Dialogue Answers
unfolding prompt_with_default prompt_optional prompt_yes_no prompt_keys_file
questions resolve network = do
  datadir ← prompt_with_default (codes "~/.kernel-node")
  connect ← prompt_optional
  sp_keys_file ← prompt_keys_file resolve
  proxied ← prompt_yes_no false
  proxy ← if proxied then proxy_address else pure none
  daemon ← prompt_yes_no false
  pure (record {
    network = network;
    datadir = datadir;
    connect = connect;
    sp_keys_file = sp_keys_file;
    proxy = proxy;
    daemon = daemon;
  })

abbrev option_args : List ℕ → Option (List ℕ) → List (List ℕ)
option_args name none = []
option_args name (some value) = name ∷ value ∷ []

unfoldable pub args_of : Answers → List (List ℕ)
args_of a =
    codes "run"
    ∷ codes "--bin"
    ∷ codes "node"
    ∷ codes "--release"
    ∷ codes "--"
    ∷ codes "--network"
    ∷ a.network
    ∷ codes "--datadir"
    ∷ a.datadir
    ∷ (option_args (codes "--connect") a.connect
        ++ (option_args (codes "--sp-keys-file") a.sp_keys_file
            ++ (option_args (codes "--proxy") a.proxy
                ++ (if a.daemon then codes "--daemon=true" ∷ [] else []))))

-- The line that is printed: the command and its arguments.
unfoldable pub printable : Answers → List ℕ
unfolding args_of shell_quote join
printable a = codes "cargo " ++ join b' ' (map shell_quote (args_of a))
