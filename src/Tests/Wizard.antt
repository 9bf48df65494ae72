-- ===== src/Tests/Wizard.antt =====
-- Runs of the wizard's dialogue.
use kernel_node.Prelude.{
  ℕ, ◌≡◌, refl, true, false, Option, none, some, List, ◌∷◌, ℕ_discrete, nat_eq, [],
}
use kernel_node.Prelude.Text.{codes, all, join, trim}
use kernel_node.Prelude.Text
use kernel_node.Prelude.Slices.{same_bytes}
use kernel_node.Wizard
use kernel_node.Wizard.{Answers, args_of, printable, shell_quote, questions, is_safe, escape_quotes}
use kernel_node.Wizard.Shell.{between, read_words, read_words-printable}
use kernel_node.Wizard.Choice
use kernel_node.Wizard.Choice.{Selected, chosen, aborted, option_at, select, fallback_select}

abbrev answers : Answers
answers = record {
  network = codes "signet";
  datadir = codes "/home/it's me";
  connect = some (codes "127.0.0.1:8333");
  sp_keys_file = none;
  proxy = none;
  daemon = true;
}

quote_run : shell_quote (codes "it's me") ≡ codes "'it'\\''s me'"
unfolding shell_quote is_safe escape_quotes all ℕ_discrete
quote_run = refl

read_words-printable_example :
    read_words between (printable answers) ≡ some (codes "cargo" ∷ args_of answers)
unfolding args_of ℕ_discrete all is_safe
read_words-printable_example = read_words-printable answers (
  refl,
  (refl, (refl, (refl, (refl, (refl, (refl, (refl, (refl, (refl, (refl, (refl, tt))))))))))),
)

abbrev no_path : List ℕ → Option (List ℕ)
no_path text = none

questions_run :
    questions no_path
      (codes "signet")
      (codes " " ∷ codes "" ∷ codes "/missing" ∷ codes "" ∷ codes "Yes" ∷ codes "maybe" ∷ [])
    ≡ (
      record {
        network = codes "signet";
        datadir = codes "~/.kernel-node";
        connect = none;
        sp_keys_file = none;
        proxy = some (codes "maybe");
        daemon = false;
      },
      [],
    )
unfolding questions Wizard.prompt_with_default Wizard.prompt_optional Wizard.prompt_keys_file
    Wizard.prompt_yes_no Wizard.yes_no Wizard.read_line trim Text.trim_start Text.trim_end
    same_bytes ℕ_discrete
questions_run = refl

abbrev networks : List (List ℕ)
networks = codes "signet" ∷ codes "bitcoin" ∷ []

-- Up goes around to the last option.
abbrev keys : List (List ℕ)
keys = (27 ∷ b'[' ∷ b'A' ∷ []) ∷ [] ∷ (b'x' ∷ []) ∷ (13 ∷ []) ∷ []

select_run : select networks 0 keys ≡ chosen (codes "bitcoin")
unfolding select Choice.select_loop Choice.press Choice.arrow Choice.letter Choice.up ℕ_discrete
select_run = refl

fallback_run :
    (fallback_select networks 0 (codes "mainnet" ∷ codes "7" ∷ codes "1" ∷ [])).0
    ≡ chosen (codes "bitcoin")
unfolding fallback_select Choice.pick Choice.find_option Text.parse_usize Text.parse_digits trim
    Text.trim_start Text.trim_end same_bytes ℕ_discrete
fallback_run = refl

named_run : (fallback_select networks 0 (codes "BITCOIN" ∷ [])).0 ≡ chosen (codes "bitcoin")
unfolding fallback_select Choice.pick Choice.find_option trim Text.trim_start Text.trim_end
    same_bytes ℕ_discrete
named_run = refl
